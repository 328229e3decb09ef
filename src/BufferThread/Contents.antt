-- ===== src/BufferThread/Contents.antt =====
-- What the buffers of src/buffer_thread.rs hold after any messages.
use profiler_rs.Json.{Json}
use profiler_rs.Markers.{Marker}
use profiler_rs.Prelude.{
  ℕ, suc, ◌≤◌, ◌≡◌, refl, List, [], ◌∷◌, ◌++◌, Bool, true, false, ok, >>=-eq-ok, length,
  if◌then◌else◌, ◌⊎◌, inl, inr, ap, ◌∙◌, subst,
}
use profiler_rs.SamplesSerializer.{Sample}
use profiler_rs.TimeExpiringBuffer
use profiler_rs.TimeExpiringBuffer.{TimeExpiringBuffer, BufferEntry, push_back, remove_expired, len}
use profiler_rs.TimeExpiringBuffer.Expiry.{fresh}
use profiler_rs.TimeExpiringBuffer.History
use profiler_rs.TimeExpiringBuffer.History.{
  Call, push, expire, IsMonotonic, IsMonotonic-mono, HasNoExpiry, pushed, last_expiry,
}
use profiler_rs.BufferThread.{
  BufferThreadMessage, add_marker, add_sample, clear_expired_markers, serialize_buffer,
  get_sample_count, waiting_for_one_sample, SerializationMessage, sample_count, BufferThread, new,
  serialize_buffer_value, send, handle, Delivery, run,
}

pub if_cases {ℓ} :
    {A : Type ℓ} {x y z : A} (b : Bool)
    → (if b then x else y) ≡ z
    → ((b ≡ true) × (x ≡ z)) ⊎ ((b ≡ false) × (y ≡ z))
if_cases true e = inl (refl, e)
if_cases false e = inr (refl, e)

module _ (J : Json) where
  -- The call that a message makes on the buffer of markers, if any, in front of later ones.
  abbrev pub marker_call :
      ℕ → BufferThreadMessage J → List (ℕ × Call (Marker J)) → List (ℕ × Call (Marker J))
  marker_call now (add_marker tid m) rest = (now, push tid m) ∷ rest
  marker_call now clear_expired_markers rest = (now, expire) ∷ rest
  marker_call now (add_sample _ _) rest = rest
  marker_call now (serialize_buffer _) rest = rest
  marker_call now get_sample_count rest = rest
  marker_call now waiting_for_one_sample rest = rest

  abbrev pub marker_calls : List (Delivery J) → List (ℕ × Call (Marker J))
  marker_calls [] = []
  marker_calls (d ∷ ds) = marker_call d.now d.message (marker_calls ds)

  abbrev pub sample_call :
      ℕ → BufferThreadMessage J → List (ℕ × Call Sample) → List (ℕ × Call Sample)
  sample_call now (add_sample tid s) rest = (now, push tid s) ∷ rest
  sample_call now (add_marker _ _) rest = rest
  sample_call now clear_expired_markers rest = rest
  sample_call now (serialize_buffer _) rest = rest
  sample_call now get_sample_count rest = rest
  sample_call now waiting_for_one_sample rest = rest

  abbrev pub sample_calls : List (Delivery J) → List (ℕ × Call Sample)
  sample_calls [] = []
  sample_calls (d ∷ ds) = sample_call d.now d.message (sample_calls ds)

  -- The times of the messages do not go back.
  abbrev pub IsInOrder : ℕ → List (Delivery J) → Type 0
  IsInOrder clock [] = Unit
  IsInOrder clock (d ∷ ds) = (clock ≤ d.now) × IsInOrder d.now ds

  -- The buffers after a message.
  abbrev After : ℕ → BufferThreadMessage J → BufferThread J → BufferThread J → Type 0
  After now m b b' =
      ((rest : List (ℕ × Call (Marker J)))
        → History.run b'.markers rest ≡ History.run b.markers (marker_call now m rest))
      × ((rest : List (ℕ × Call Sample))
          → History.run b'.samples rest ≡ History.run b.samples (sample_call now m rest))

  pub send_keeps :
      (alive : Bool) (b b' : BufferThread J) (m : SerializationMessage J)
      (sent : List (SerializationMessage J))
      → send J alive b m ≡ ok (b', sent)
      → (b ≡ b') × (m ∷ [] ≡ sent)
  unfolding send
  send_keeps true b b' m sent e = (cc, cc)
  send_keeps false b b' m sent e = cc

  handle-After :
      (pid now : ℕ) (alive : Bool) (b b' : BufferThread J) (m : BufferThreadMessage J)
      (sent : List (SerializationMessage J))
      → handle J pid now alive b m ≡ ok (b', sent)
      → After now m b b'
  unfolding handle History.run History.step
  handle-After pid now alive b b' (add_marker tid m) sent e =
      let same : record b { markers = push_back now b.markers tid m } ≡ b' = cc in
      subst (After now (add_marker tid m) b) same (λ rest. refl, λ rest. refl)
  handle-After pid now alive b b' (add_sample tid s) sent e =
      elim (if_cases b.is_waiting_for_one_sample e) [
        | inl (_, e') ↦
            let (same, _) = send_keeps alive _ b' _ sent e' in
            subst (After now (add_sample tid s) b) same (λ rest. refl, λ rest. refl)
        | inr (_, e') ↦
            let same : record b { samples = push_back now b.samples tid s } ≡ b' = cc in
            subst (After now (add_sample tid s) b) same (λ rest. refl, λ rest. refl)
      ]
  handle-After pid now alive b b' clear_expired_markers sent e =
      let same : record b { markers = remove_expired now b.markers } ≡ b' = cc in
      subst (After now clear_expired_markers b) same (λ rest. refl, λ rest. refl)
  handle-After pid now alive b b' (serialize_buffer info) sent e =
      let (v, _, e') = >>=-eq-ok (serialize_buffer_value J pid b info) _ e in
      let (same, _) = send_keeps alive b b' _ sent e' in
      subst (After now (serialize_buffer info) b) same (λ rest. refl, λ rest. refl)
  handle-After pid now alive b b' get_sample_count sent e =
      let (same, _) = send_keeps alive b b' _ sent e in
      subst (After now get_sample_count b) same (λ rest. refl, λ rest. refl)
  handle-After pid now alive b b' waiting_for_one_sample sent e =
      let same : record b { is_waiting_for_one_sample = true } ≡ b' = cc in
      subst (After now waiting_for_one_sample b) same (λ rest. refl, λ rest. refl)

  run-calls :
      (pid : ℕ) (b b' : BufferThread J) (ds : List (Delivery J))
      (sent : List (SerializationMessage J))
      → run J pid b ds ≡ ok (b', sent)
      → (b'.markers ≡ History.run b.markers (marker_calls ds))
        × (b'.samples ≡ History.run b.samples (sample_calls ds))
  unfolding run History.run
  run-calls pid b b' [] sent e = let same : b ≡ b' = cc in rw (← same) (refl, refl)
  run-calls pid b b' (d ∷ ds) sent e =
      let (p, here, later) = >>=-eq-ok (handle J pid d.now d.core_alive b d.message) _ e in
      let (q, there, end) = >>=-eq-ok (run J pid p.0 ds) _ later in
      let same : q.0 ≡ b' = cc in
      let (markers, samples) = run-calls pid p.0 q.0 ds q.1 there in
      let (markers', samples') = handle-After pid d.now d.core_alive b p.0 d.message p.1 here in
      subst
        (λ c.
          (c.markers ≡ History.run b.markers (marker_calls (d ∷ ds)))
          × (c.samples ≡ History.run b.samples (sample_calls (d ∷ ds))))
        same (markers ∙ markers' (marker_calls ds), samples ∙ samples' (sample_calls ds))

  marker_call-IsMonotonic :
      (clock now : ℕ) (m : BufferThreadMessage J) (rest : List (ℕ × Call (Marker J)))
      → clock ≤ now
      → IsMonotonic now rest
      → IsMonotonic clock (marker_call now m rest)
  marker_call-IsMonotonic clock now (add_marker _ _) rest h o = (h, o)
  marker_call-IsMonotonic clock now clear_expired_markers rest h o = (h, o)
  marker_call-IsMonotonic clock now _ rest h o = IsMonotonic-mono clock now rest h o

  marker_calls-IsMonotonic :
      (clock : ℕ) (ds : List (Delivery J))
      → IsInOrder clock ds
      → IsMonotonic clock (marker_calls ds)
  marker_calls-IsMonotonic clock [] o = tt
  marker_calls-IsMonotonic clock (d ∷ ds) o =
      marker_call-IsMonotonic clock d.now d.message (marker_calls ds) o.0
        (marker_calls-IsMonotonic d.now ds o.1)

  sample_call-HasNoExpiry :
      (now : ℕ) (m : BufferThreadMessage J) (rest : List (ℕ × Call Sample))
      → HasNoExpiry rest
      → HasNoExpiry (sample_call now m rest)
  sample_call-HasNoExpiry now (add_sample _ _) rest h = h
  sample_call-HasNoExpiry now _ rest h = h

  sample_calls-HasNoExpiry : (ds : List (Delivery J)) → HasNoExpiry (sample_calls ds)
  sample_calls-HasNoExpiry [] = tt
  sample_calls-HasNoExpiry (d ∷ ds) =
      sample_call-HasNoExpiry d.now d.message (sample_calls ds) (sample_calls-HasNoExpiry ds)

  -- After any messages that were handled without a panic, at times that do not go back, the markers
  -- are those added, in order, that had not expired when `ClearExpiredMarkers` last came; and the
  -- samples are all that were ever added, in order, since no message drops one.
  pub run-contents :
      (pid life : ℕ) (ds : List (Delivery J)) (b : BufferThread J)
      (sent : List (SerializationMessage J))
      → IsInOrder 0 ds
      → run J pid (new J life) ds ≡ ok (b, sent)
      → (b.markers.buffer ≡ fresh (last_expiry 0 (marker_calls ds)) life (pushed (marker_calls ds)))
        × (b.samples.buffer ≡ pushed (sample_calls ds))
  unfolding new
  run-contents pid life ds b sent o e =
      let (markers, samples) = run-calls pid (new J life) b ds sent e in
      (
        ap (λ m. m.buffer) markers
            ∙ History.run-new 0 life (marker_calls ds) (marker_calls-IsMonotonic 0 ds o),
        ap (λ m. m.buffer) samples
            ∙ (History.run-pushed (TimeExpiringBuffer.new life) (sample_calls ds)
                  (sample_calls-HasNoExpiry ds)
                ∙ ap (λ l. l ++ pushed (sample_calls ds)) (History.new_fields life).1),
      )

  -- How many samples the messages add.
  abbrev pub count_samples : List (Delivery J) → ℕ
  count_samples ds = length (sample_calls ds)

  length-pushed : (cs : List (ℕ × Call Sample)) → HasNoExpiry cs → length (pushed cs) ≡ length cs
  length-pushed [] h = refl
  length-pushed ((now, push tid value) ∷ cs) h = ap suc (length-pushed cs h)
  length-pushed ((now, expire) ∷ cs) h = absurd h

  -- After any messages handled without a panic, `GetSampleCount` is answered, while the core listens,
  -- by the number of samples added so far, and leaves the state as it was.
  pub handle-count_samples :
      (pid life now : ℕ) (ds : List (Delivery J)) (b : BufferThread J)
      (sent : List (SerializationMessage J))
      → run J pid (new J life) ds ≡ ok (b, sent)
      → handle J pid now true b get_sample_count ≡ ok (b, sample_count (count_samples ds) ∷ [])
  unfolding handle send new len
  handle-count_samples pid life now ds b sent e =
      let (_, samples) = run-calls pid (new J life) b ds sent e in
      ap (λ n. ok (b, sample_count n ∷ []))
        (ap (λ m. length m.buffer) samples
          ∙ (ap length (
                History.run-pushed (TimeExpiringBuffer.new life) (sample_calls ds)
                  (sample_calls-HasNoExpiry ds)
                ∙ ap (λ l. l ++ pushed (sample_calls ds)) (History.new_fields life).1)
              ∙ length-pushed (sample_calls ds) (sample_calls-HasNoExpiry ds)))
