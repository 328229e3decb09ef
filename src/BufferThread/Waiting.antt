-- ===== src/BufferThread/Waiting.antt =====
-- The message `WaitingForOneSample` and the reply `OneSampleReceived` in src/buffer_thread.rs.
use profiler_rs.Json.{Json}
use profiler_rs.Prelude.{
  ℕ, ◌+◌, ◌≤◌, ◌≡◌, List, [], ◌∷◌, ◌++◌, Bool, true, false, ok, >>=-eq-ok, arith, ap, sym, ◌∙◌,
  subst, inl, inr,
}
use profiler_rs.SamplesSerializer.{Sample}
use profiler_rs.TimeExpiringBuffer.History.{Call}
use profiler_rs.TimeExpiringBuffer.{push_back, remove_expired}
use profiler_rs.BufferThread.{
  BufferThreadMessage, add_marker, add_sample, clear_expired_markers, serialize_buffer,
  get_sample_count, waiting_for_one_sample, SerializationMessage, serialize, sample_count,
  one_sample_received, BufferThread, serialize_buffer_value, send, handle, Delivery, run, new,
}
use profiler_rs.BufferThread.Contents.{if_cases, send_keeps, sample_call, sample_calls}

abbrev flag : Bool → ℕ
flag true = 1
flag false = 0

module _ (J : Json) where
  -- How often `OneSampleReceived` was sent.
  abbrev pub count_received : List (SerializationMessage J) → ℕ
  count_received [] = 0
  count_received (one_sample_received ∷ ms) = 1 + count_received ms
  count_received (serialize _ ∷ ms) = count_received ms
  count_received (sample_count _ ∷ ms) = count_received ms

  wait_of : BufferThreadMessage J → ℕ
  wait_of waiting_for_one_sample = 1
  wait_of (add_marker _ _) = 0
  wait_of (add_sample _ _) = 0
  wait_of clear_expired_markers = 0
  wait_of (serialize_buffer _) = 0
  wait_of get_sample_count = 0

  -- How often `WaitingForOneSample` came.
  pub count_waits : List (Delivery J) → ℕ
  unfolding wait_of
  count_waits [] = 0
  count_waits (d ∷ ds) = wait_of d.message + count_waits ds

  count_received-append :
      (xs ys : List (SerializationMessage J))
      → count_received (xs ++ ys) ≡ count_received xs + count_received ys
  count_received-append [] ys = omega arith
  count_received-append (one_sample_received ∷ xs) ys = omega (arith, count_received-append xs ys)
  count_received-append (serialize _ ∷ xs) ys = count_received-append xs ys
  count_received-append (sample_count _ ∷ xs) ys = count_received-append xs ys

  -- What a message does to the balance of waits and answers.
  abbrev Balances :
      BufferThreadMessage J
      → BufferThread J
      → BufferThread J
      → List (SerializationMessage J)
      → Type 0
  Balances m b b' sent =
      count_received sent + flag b'.is_waiting_for_one_sample
      ≤ flag b.is_waiting_for_one_sample + wait_of m

  Balances-of :
      (m : BufferThreadMessage J) (b c b' : BufferThread J)
      (out sent : List (SerializationMessage J))
      → c ≡ b'
      → out ≡ sent
      → Balances m b c out
      → Balances m b b' sent
  Balances-of m b c b' out sent same told h =
      subst (Balances m b b') told (subst (λ x. Balances m b x out) same h)

  handle-Balances :
      (pid now : ℕ) (alive : Bool) (b b' : BufferThread J) (m : BufferThreadMessage J)
      (sent : List (SerializationMessage J))
      → handle J pid now alive b m ≡ ok (b', sent)
      → Balances m b b' sent
  unfolding handle wait_of
  handle-Balances pid now alive b b' (add_marker tid m) sent e =
      Balances-of (add_marker tid m) b (record b { markers = push_back now b.markers tid m }) b' []
        sent (cc) (cc) (omega arith)
  handle-Balances pid now alive b b' (add_sample tid s) sent e =
      elim (if_cases b.is_waiting_for_one_sample e) [
        | inl (w, e') ↦
            let (same, told) = send_keeps J alive _ b' _ sent e' in
            Balances-of (add_sample tid s) b _ b' _ sent same told
              (subst (λ x. 1 ≤ flag x + 0) (sym w) (omega arith))
        | inr (w, e') ↦
            Balances-of (add_sample tid s) b (record b { samples = push_back now b.samples tid s })
              b' [] sent (cc) (cc) (omega arith)
      ]
  handle-Balances pid now alive b b' clear_expired_markers sent e =
      Balances-of clear_expired_markers b (record b { markers = remove_expired now b.markers }) b'
        [] sent (cc) (cc) (omega arith)
  handle-Balances pid now alive b b' (serialize_buffer info) sent e =
      let (v, _, e') = >>=-eq-ok (serialize_buffer_value J pid b info) _ e in
      let (same, told) = send_keeps J alive b b' _ sent e' in
      Balances-of (serialize_buffer info) b b b' _ sent same told (omega arith)
  handle-Balances pid now alive b b' get_sample_count sent e =
      let (same, told) = send_keeps J alive b b' _ sent e in
      Balances-of get_sample_count b b b' _ sent same told (omega arith)
  handle-Balances pid now alive b b' waiting_for_one_sample sent e =
      Balances-of waiting_for_one_sample b (record b { is_waiting_for_one_sample = true }) b' []
        sent (cc) (cc) (omega arith)

  run-balance :
      (pid : ℕ) (b b' : BufferThread J) (ds : List (Delivery J))
      (sent : List (SerializationMessage J))
      → run J pid b ds ≡ ok (b', sent)
      → count_received sent + flag b'.is_waiting_for_one_sample
        ≤ flag b.is_waiting_for_one_sample + count_waits ds
  unfolding run count_waits
  run-balance pid b b' [] sent e =
      let same : b ≡ b' = cc in
      let told : [] ≡ sent = cc in
      subst
        (λ x.
          count_received x + flag b'.is_waiting_for_one_sample
          ≤ flag b.is_waiting_for_one_sample + 0)
        told
        (subst (λ x. 0 + flag x.is_waiting_for_one_sample ≤ flag b.is_waiting_for_one_sample + 0)
          same (omega arith))
  run-balance pid b b' (d ∷ ds) sent e =
      let (p, here, later) = >>=-eq-ok (handle J pid d.now d.core_alive b d.message) _ e in
      let (q, there, end) = >>=-eq-ok (run J pid p.0 ds) _ later in
      let same : q.0 ≡ b' = cc in
      let told : p.1 ++ q.1 ≡ sent = cc in
      let first = handle-Balances pid d.now d.core_alive b p.0 d.message p.1 here in
      let rest = run-balance pid p.0 q.0 ds q.1 there in
      rw (← same, ← told) (omega (arith, count_received-append p.1 q.1))

  -- `OneSampleReceived` is never sent more often than `WaitingForOneSample` came.
  pub run-count_received :
      (pid life : ℕ) (ds : List (Delivery J)) (b : BufferThread J)
      (sent : List (SerializationMessage J))
      → run J pid (new J life) ds ≡ ok (b, sent)
      → count_received sent ≤ count_waits ds
  unfolding new
  run-count_received pid life ds b sent e = omega (arith, run-balance pid (new J life) b ds sent e)

  -- A message that adds no sample, while the thread waits.
  handle-still_waiting :
      (pid now : ℕ) (alive : Bool) (b b' : BufferThread J) (m : BufferThreadMessage J)
      (sent : List (SerializationMessage J)) (rest : List (ℕ × Call Sample))
      → b.is_waiting_for_one_sample ≡ true
      → sample_call J now m rest ≡ []
      → handle J pid now alive b m ≡ ok (b', sent)
      → (rest ≡ []) × (count_received sent ≡ 0) × (b'.is_waiting_for_one_sample ≡ true)
  unfolding handle
  handle-still_waiting pid now alive b b' (add_sample tid s) sent rest w quiet e = cc
  handle-still_waiting pid now alive b b' (add_marker tid m) sent rest w quiet e =
      let same : record b { markers = push_back now b.markers tid m } ≡ b' = cc in
      let told : [] ≡ sent = cc in
      (quiet, ap count_received (sym told), ap (λ x. x.is_waiting_for_one_sample) (sym same) ∙ w)
  handle-still_waiting pid now alive b b' clear_expired_markers sent rest w quiet e =
      let same : record b { markers = remove_expired now b.markers } ≡ b' = cc in
      let told : [] ≡ sent = cc in
      (quiet, ap count_received (sym told), ap (λ x. x.is_waiting_for_one_sample) (sym same) ∙ w)
  handle-still_waiting pid now alive b b' (serialize_buffer info) sent rest w quiet e =
      let (v, _, e') = >>=-eq-ok (serialize_buffer_value J pid b info) _ e in
      let (same, told) = send_keeps J alive b b' _ sent e' in
      (quiet, ap count_received (sym told), ap (λ x. x.is_waiting_for_one_sample) (sym same) ∙ w)
  handle-still_waiting pid now alive b b' get_sample_count sent rest w quiet e =
      let (same, told) = send_keeps J alive b b' _ sent e in
      (quiet, ap count_received (sym told), ap (λ x. x.is_waiting_for_one_sample) (sym same) ∙ w)
  handle-still_waiting pid now alive b b' waiting_for_one_sample sent rest w quiet e =
      let same : record b { is_waiting_for_one_sample = true } ≡ b' = cc in
      let told : [] ≡ sent = cc in
      (quiet, ap count_received (sym told), ap (λ x. x.is_waiting_for_one_sample) (sym same))

  run-still_waiting :
      (pid : ℕ) (b b' : BufferThread J) (ds : List (Delivery J))
      (sent : List (SerializationMessage J))
      → b.is_waiting_for_one_sample ≡ true
      → sample_calls J ds ≡ []
      → run J pid b ds ≡ ok (b', sent)
      → (count_received sent ≡ 0) × (b'.is_waiting_for_one_sample ≡ true)
  unfolding run
  run-still_waiting pid b b' [] sent w quiet e =
      let same : b ≡ b' = cc in
      let told : [] ≡ sent = cc in
      (ap count_received (sym told), ap (λ x. x.is_waiting_for_one_sample) (sym same) ∙ w)
  run-still_waiting pid b b' (d ∷ ds) sent w quiet e =
      let (p, here, later) = >>=-eq-ok (handle J pid d.now d.core_alive b d.message) _ e in
      let (q, there, end) = >>=-eq-ok (run J pid p.0 ds) _ later in
      let same : q.0 ≡ b' = cc in
      let told : p.1 ++ q.1 ≡ sent = cc in
      let (quiet', silent, w') =
        handle-still_waiting pid d.now d.core_alive b p.0 d.message p.1 (sample_calls J ds) w quiet
          here in
      let (silent', w'') = run-still_waiting pid p.0 q.0 ds q.1 w' quiet' there in
      rw (← same, ← told) (omega (arith, count_received-append p.1 q.1), w'')

  -- A thread that waits for one sample goes on waiting through messages that add none, and sends no
  -- `OneSampleReceived` for them. The first sample then added, while the core listens, is answered by
  -- one `OneSampleReceived`, and the wait is over.
  pub run_answers_wait :
      (pid : ℕ) (b b' : BufferThread J) (ds : List (Delivery J))
      (sent : List (SerializationMessage J))
      → b.is_waiting_for_one_sample ≡ true
      → sample_calls J ds ≡ []
      → run J pid b ds ≡ ok (b', sent)
      → (count_received sent ≡ 0)
        × ((now tid : ℕ) (s : Sample)
            → handle J pid now true b' (add_sample tid s)
              ≡ ok (
                record {
                  markers = b'.markers;
                  samples = push_back now b'.samples tid s;
                  is_waiting_for_one_sample = false;
                },
                one_sample_received ∷ [],
              ))
  unfolding handle send
  run_answers_wait pid b b' ds sent w quiet e =
      let (silent, w') = run-still_waiting pid b b' ds sent w quiet e in
      (silent, λ now tid s. rw w')
