-- ===== src/Core/Protocol.antt =====
-- Where the one request that the core of src/core.rs may have open stands: in the queue, in the wait of
-- the buffer thread, or in the replies.
use profiler_rs.BufferThread.{
  BufferThread, BufferThreadMessage, SerializationMessage, serialize, sample_count,
  one_sample_received, handle,
}
use profiler_rs.Core.{
  MainThreadCore, Request, ask_sample_count, ask_serialize, ask_one_sample, core_info,
  request_message, Answer, counted, profiled, sampled, accept, CoreState, ready, awaiting,
  disconnected, BufferState, alive, gone, listens,
}
use profiler_rs.Core.Requests.{
  IsSilent, samples_of, count, Absorbed, quiet-Absorbed, waiting-Absorbed, handle-get_sample_count,
  handle-waiting_for_one_sample, handle-serialize_buffer,
}
use profiler_rs.Json.{Json}
use profiler_rs.Prelude.{
  ℕ, ◌+◌, ◌≤◌, ◌≡◌, refl, List, [], ◌∷◌, ◌++◌, some, Bool, true, false, ok, err, arith, All, ap,
  sym, ◌∙◌, ◌⊎◌, inl, inr, subst,
}
use profiler_rs.SamplesSerializer.{Fault}

module _ (J : Json) where
  abbrev pub samples_in : List (BufferThreadMessage J) → ℕ
  samples_in [] = 0
  samples_in (m ∷ ms) = samples_of J m + samples_in ms

  -- How often a reply is `OneSampleReceived`.
  abbrev pub received_of : SerializationMessage J → ℕ
  received_of one_sample_received = 1
  received_of (serialize _) = 0
  received_of (sample_count _) = 0

  abbrev pub received_in : List (SerializationMessage J) → ℕ
  received_in [] = 0
  received_in (m ∷ ms) = received_of m + received_in ms

  -- An answer that counts samples counts those that had been sent when the request was made.
  abbrev pub IsRight : ℕ → Answer J → Type 0
  IsRight asked (counted size) = size ≡ asked
  IsRight asked (profiled _) = Unit
  IsRight asked sampled = Unit

  pub data Pending
      : CoreState J
        → BufferState J
        → List (BufferThreadMessage J)
        → List (SerializationMessage J)
        → Type 0 where
    idle :
        {b : BufferThread J} {queue : List (BufferThreadMessage J)}
        → All (IsSilent J) queue
        → b.is_waiting_for_one_sample ≡ false
        → Pending ready (alive b) queue []
    queued :
        {b : BufferThread J} {queue : List (BufferThreadMessage J)} {r : Request} {asked : ℕ}
        (c : MainThreadCore) (pre post : List (BufferThreadMessage J))
        → queue ≡ pre ++ request_message J c r ∷ post
        → All (IsSilent J) pre
        → All (IsSilent J) post
        → b.is_waiting_for_one_sample ≡ false
        → count J b + samples_in pre ≡ asked
        → Pending (awaiting r asked) (alive b) queue []
    waiting :
        {b : BufferThread J} {queue : List (BufferThreadMessage J)} {asked : ℕ}
        → All (IsSilent J) queue
        → b.is_waiting_for_one_sample ≡ true
        → Pending (awaiting ask_one_sample asked) (alive b) queue []
    answered :
        {b : BufferThread J} {queue : List (BufferThreadMessage J)} {r : Request} {asked : ℕ}
        {m : SerializationMessage J} (a : Answer J)
        → accept J r m ≡ some a
        → IsRight asked a
        → All (IsSilent J) queue
        → b.is_waiting_for_one_sample ≡ false
        → Pending (awaiting r asked) (alive b) queue (m ∷ [])
    -- The buffer thread panicked on the request.
    lost : {r : Request} {asked : ℕ} → Pending (awaiting r asked) gone [] []
    down : Pending disconnected gone [] []

  -- A round of the buffer thread on a message.
  abbrev pub Handled :
      (pid now : ℕ)
      → CoreState J
      → BufferThread J
      → BufferThreadMessage J
      → (rest : List (BufferThreadMessage J)) → (replies : List (SerializationMessage J)) → Type 0
  Handled pid now core b m rest replies =
      ((b' : BufferThread J) × (sent : List (SerializationMessage J)) × (handle J pid now
            (listens J core) b m
          ≡ ok (b', sent))
        × Pending core (alive b') rest (replies ++ sent)
        × (count J b' ≡ count J b + samples_of J m)
        × (received_in sent ≤ samples_of J m))
      ⊎ ((fault : Fault) × (handle J pid now (listens J core) b m ≡ err fault)
          × Pending core gone [] replies)

  head_eq :
      {m p : BufferThreadMessage J} {rest ps : List (BufferThreadMessage J)}
      → m ∷ rest ≡ p ∷ ps
      → (p ≡ m) × (rest ≡ ps)
  head_eq e = (cc, cc)

  -- The request's own message.
  request-Handled :
      (pid now : ℕ) (b : BufferThread J) (r : Request) (asked : ℕ) (c : MainThreadCore)
      (rest : List (BufferThreadMessage J))
      → All (IsSilent J) rest
      → b.is_waiting_for_one_sample ≡ false
      → count J b ≡ asked
      → Handled pid now (awaiting r asked) b (request_message J c r) rest []
  unfolding request_message listens accept
  request-Handled pid now b ask_sample_count asked c rest quiet w n = inl (
    b,
    sample_count (count J b) ∷ [],
    handle-get_sample_count J pid now b,
    answered (counted (count J b)) refl n quiet w,
    omega arith,
    omega arith,
  )
  request-Handled pid now b ask_serialize asked c rest quiet w n =
      elim (handle-serialize_buffer J pid now b (core_info c)) [
        | inl (v, run) ↦ inl (
          b,
          serialize v ∷ [],
          run,
          answered (profiled v) refl tt quiet w,
          omega arith,
          omega arith,
        )
        | inr (fault, run) ↦ inr (fault, run, lost)
      ]
  request-Handled pid now b ask_one_sample asked c rest quiet w n = inl (
    record b { is_waiting_for_one_sample = true },
    [],
    handle-waiting_for_one_sample J pid now b,
    waiting quiet refl,
    omega arith,
    omega arith,
  )

  accepted_one : accept J ask_one_sample one_sample_received ≡ some sampled
  unfolding accept
  accepted_one = refl

  -- A message for which no reply is due.
  silent-Handled :
      {waits : Bool} {b : BufferThread J} {core : CoreState J} {m : BufferThreadMessage J}
      (pid now : ℕ) (rest : List (BufferThreadMessage J))
      (replies sent : List (SerializationMessage J))
      → listens J core ≡ true
      → (a : Absorbed J pid now b m sent waits) → received_in sent ≤ samples_of J m
      → Pending core (alive a.after) rest (replies ++ sent)
      → Handled pid now core b m rest replies
  silent-Handled {b} {m} pid now rest replies sent on a few p =
      inl (a.after, sent, ap (λ l. handle J pid now l b m) on ∙ a.run, p, a.counted, few)

  pub handle-Pending :
      {core : CoreState J} {b : BufferThread J} {m : BufferThreadMessage J}
      {rest : List (BufferThreadMessage J)} {replies : List (SerializationMessage J)} (pid now : ℕ)
      → Pending core (alive b) (m ∷ rest) replies
      → Handled pid now core b m rest replies
  unfolding listens
  handle-Pending {b} {m} {rest} pid now (idle (silent, quiet) w) =
      let a = quiet-Absorbed J pid now b m silent w in
      silent-Handled pid now rest [] [] refl a (omega arith) (idle quiet a.flag)
  handle-Pending {b} {m} {rest} pid now (queued {r} {asked} c [] post e before after w n) =
      let (is, ends) = head_eq e in
      subst (λ p. Handled pid now (awaiting r asked) b p rest []) is
        (request-Handled pid now b r asked c rest (subst (All (IsSilent J)) (sym ends) after) w
          (omega arith))
  handle-Pending {b} {m} {rest} pid now (queued {r} {asked} c (p ∷ pre) post e before after w n) =
      let (is, ends) = head_eq e in
      let a = quiet-Absorbed J pid now b m (subst (IsSilent J) is before.0) w in
      let same = ap (samples_of J) is in
      silent-Handled pid now rest [] [] refl a (omega arith)
        (queued c pre post ends before.1 after a.flag (omega (arith, a.counted, same, n)))
  handle-Pending {b} {m} {rest} pid now (waiting (silent, quiet) w) =
      elim (waiting-Absorbed J pid now b m silent w) [
        | inl (none_in, a) ↦
            silent-Handled pid now rest [] [] refl a (omega arith) (waiting quiet a.flag)
        | inr (one, a) ↦
            silent-Handled pid now rest [] (one_sample_received ∷ []) refl a (omega (arith, one))
              (answered sampled (accepted_one) tt quiet a.flag)
      ]
  handle-Pending {b} {m} {rest} pid now (answered {m = reply} a accepted right (silent, quiet) w) =
      let s = quiet-Absorbed J pid now b m silent w in
      silent-Handled pid now rest (reply ∷ []) [] refl s (omega arith)
        (answered a accepted right quiet s.flag)
