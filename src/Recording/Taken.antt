-- ===== src/Recording/Taken.antt =====
-- Where the samples of the buffer thread (src/buffer_thread.rs) come from: the sampler thread
-- (src/sampler_thread.rs) took them of registered threads.
use profiler_rs.BufferThread
use profiler_rs.BufferThread.{
  BufferThreadMessage, add_marker, add_sample, clear_expired_markers, serialize_buffer,
  get_sample_count, waiting_for_one_sample, SerializationMessage, BufferThread, Delivery,
}
use profiler_rs.BufferThread.Contents.{IsInOrder, sample_call, sample_calls, run-contents}
use profiler_rs.Json.{Json}
use profiler_rs.Prelude.{
  ℕ, ◌+◌, List, [], ◌∷◌, ◌++◌, ◌≡◌, refl, inl, inr, ok, All, All-append, All-mono, Bool, true,
  false, ap, arith, sym, subst, ◌∙◌, Result-cases, if◌then◌else◌, length, length-append,
  append_assoc,
}
use profiler_rs.Recording.{samples_in, sample_of, IsIn, IsTaken}
use profiler_rs.SamplerThread
use profiler_rs.SamplerThread.{
  Sampler, Poll, received, empty, disconnected, SamplerThread, take_samples, iterate, continues,
  panics, running, run,
}
use profiler_rs.SamplerThread.Control.{
  messages, paused_after, registered, on_empty_cases, handle_sends, handle-no_panic, run-registered,
}
use profiler_rs.SamplerThread.Rounds.{run-snoc, Round-cases}
use profiler_rs.SamplesSerializer.{Sample}
use profiler_rs.TimeExpiringBuffer.History.{pushed}

abbrev AreTaken : List (Poll × ℕ) → List (ℕ × Sample) → Type 0
AreTaken ps = All (λ p. IsTaken ps p.0 p.1)

All-IsIn : (ss : List Sampler) → All (λ s. IsIn s ss) ss
All-IsIn [] = tt
All-IsIn (s ∷ ss) =
    (inl refl, All-mono (λ x. IsIn x ss) (λ x. IsIn x (s ∷ ss)) ss (λ x h. inr h) (All-IsIn ss))

front-All : (P : (ℕ × Sample) → Type 0) (xs ys : List (ℕ × Sample)) → All P (xs ++ ys) → All P xs
front-All P [] ys h = tt
front-All P (x ∷ xs) ys h = (h.0, front-All P xs ys h.1)

-- The samples of a round without a message.
take_samples-AreTaken :
    (ps before after : List (Poll × ℕ)) (accepted : ℕ) (ss : List Sampler)
    → ps ≡ before ++ (empty, accepted) ∷ after
    → paused_after true (messages before) ≡ false
    → All (λ s. IsIn s (registered (messages before))) ss
    → AreTaken ps (take_samples (length before) ss)
unfolding take_samples
take_samples-AreTaken ps before after accepted [] split on known = tt
take_samples-AreTaken ps before after accepted (s ∷ ss) split on known =
    elim (Result-cases (s.suspend_and_sample_thread (length before))) [
      | inr (stack, e) ↦
          rw (e, take_samples)
            (
              record {
                before = before;
                after = after;
                accepted = accepted;
                split = split;
                sampler = s;
                is_registered = known.0;
                is_started = on;
                same_thread = refl;
                taken = e;
              },
              take_samples-AreTaken ps before after accepted ss split on known.1,
            )
      | inl (_, e) ↦
          rw (e, take_samples) (take_samples-AreTaken ps before after accepted ss split on known.1)
    ]

quiet-AreTaken :
    (ps before after : List (Poll × ℕ)) (accepted : ℕ) (paused : Bool) (ss : List Sampler)
    → ps ≡ before ++ (empty, accepted) ∷ after
    → paused ≡ paused_after true (messages before)
    → ss ≡ registered (messages before)
    → AreTaken ps (if paused then [] else take_samples (length before) ss)
quiet-AreTaken ps before after accepted true ss split off known = tt
quiet-AreTaken ps before after accepted false ss split on known =
    take_samples-AreTaken ps before after accepted ss split (sym on)
      (subst (λ l. All (λ s. IsIn s l) ss) known (All-IsIn ss))

-- What a round sends.
iterate-AreTaken :
    (ps before after : List (Poll × ℕ)) (t t' : SamplerThread) (p : Poll × ℕ)
    (sent : List (ℕ × Sample))
    → ps ≡ before ++ p ∷ after
    → (run 0 SamplerThread.new before).0 ≡ running t
    → iterate (length before) t p ≡ continues t' sent
    → AreTaken ps sent
unfolding iterate
iterate-AreTaken ps before after t t' (received m, _) sent split h e =
    subst (AreTaken ps) (sym (handle_sends t t' m sent e)) tt
iterate-AreTaken ps before after t t' (disconnected, _) sent split h e = cc
iterate-AreTaken ps before after t t' (empty, accepted) sent split h e =
    let (paused, known) = run-registered before t h in
    elim (on_empty_cases (length before) accepted t t.is_paused) [
      | inl quiet ↦
          let same : (if t.is_paused then [] else take_samples (length before) t.samplers) ≡ sent =
            cc in
          subst (AreTaken ps) same
            (quiet-AreTaken ps before after accepted t.is_paused t.samplers split paused known)
      | inr (_, _, dead, _) ↦ cc
    ]

-- What a round sends before it panics.
panic-AreTaken :
    (ps before after : List (Poll × ℕ)) (t : SamplerThread) (p : Poll × ℕ)
    (sent : List (ℕ × Sample))
    → ps ≡ before ++ p ∷ after
    → (run 0 SamplerThread.new before).0 ≡ running t
    → iterate (length before) t p ≡ panics sent
    → AreTaken ps sent
unfolding iterate
panic-AreTaken ps before after t (received m, _) sent split h e =
    absurd (handle-no_panic t m sent e)
panic-AreTaken ps before after t (disconnected, _) sent split h e = cc
panic-AreTaken ps before after t (empty, accepted) sent split h e =
    let (paused, known) = run-registered before t h in
    elim (on_empty_cases (length before) accepted t t.is_paused) [
      | inl quiet ↦ cc
      | inr (sent', missing, dead, parts) ↦
          let same : sent' ≡ sent = cc in
          front-All (λ x. IsTaken ps x.0 x.1) sent missing
            (subst (AreTaken ps) (parts ∙ ap (λ l. l ++ missing) same)
              (quiet-AreTaken ps before after accepted t.is_paused t.samplers split paused known))
    ]

run-AreTaken :
    (ps before after : List (Poll × ℕ)) (t : SamplerThread)
    → ps ≡ before ++ after
    → (run 0 SamplerThread.new before).0 ≡ running t
    → AreTaken ps (run (length before) t after).1
unfolding run
run-AreTaken ps before [] t split h = tt
run-AreTaken ps before (p ∷ after) t split h = elim (Round-cases (iterate (length before) t p)) [
  | inl (t', sent, e) ↦
      let count : 0 + length before ≡ length before = omega arith in
      let longer = length-append before (p ∷ []) in
      let rest =
        run-AreTaken ps (before ++ p ∷ []) after t'
          (split ∙ sym (append_assoc before (p ∷ []) after))
          (run-snoc 0 SamplerThread.new t t' before p sent h (ap (λ n. iterate n t p) count ∙ e)) in
      rw (e, run)
        (All-append (λ x. IsTaken ps x.0 x.1) sent (run (length before + 1) t' after).1
          (iterate-AreTaken ps before after t t' p sent split h e)
          (subst (λ n. AreTaken ps (run n t' after).1) longer rest))
  | inr (inl e) ↦ rw (e, run) tt
  | inr (inr (sent, e)) ↦ rw (e, run) (panic-AreTaken ps before after t p sent split h e)
]

module _ (J : Json) where
  pushed_call-All :
      (P : ℕ → Sample → Type 0) (now : ℕ) (m : BufferThreadMessage J) (ds : List (Delivery J))
      → (All (λ p. P p.0 p.1) (samples_in J ds)
          → All (λ e. P e.tid e.value) (pushed (sample_calls J ds)))
      → All (λ p. P p.0 p.1) (sample_of J m ++ samples_in J ds)
      → All (λ e. P e.tid e.value) (pushed (sample_call J now m (sample_calls J ds)))
  pushed_call-All P now (add_sample tid s) ds later h = (h.0, later h.1)
  pushed_call-All P now (add_marker _ _) ds later h = later h
  pushed_call-All P now clear_expired_markers ds later h = later h
  pushed_call-All P now (serialize_buffer _) ds later h = later h
  pushed_call-All P now get_sample_count ds later h = later h
  pushed_call-All P now waiting_for_one_sample ds later h = later h

  -- What holds of the samples among the messages holds of the entries that they make.
  pushed-All :
      (P : ℕ → Sample → Type 0) (ds : List (Delivery J))
      → All (λ p. P p.0 p.1) (samples_in J ds)
      → All (λ e. P e.tid e.value) (pushed (sample_calls J ds))
  pushed-All P [] h = tt
  pushed-All P (d ∷ ds) h = pushed_call-All P d.now d.message ds (pushed-All P ds) h

  -- When the buffer thread was sent the samples of the sampler thread, in their order, with others
  -- still to come, among any other messages, and handled them without a panic at times that do not go
  -- back: every sample in its buffer was really taken of the thread under which it stands, by a
  -- sampler that was registered then, and not unregistered again, in a round in which the sampling
  -- was started and not paused.
  pub run-IsTaken :
      (pid life : ℕ) (ps : List (Poll × ℕ)) (ds : List (Delivery J)) (rest : List (ℕ × Sample))
      (b : BufferThread J) (sent : List (SerializationMessage J))
      → IsInOrder J 0 ds
      → BufferThread.run J pid (BufferThread.new J life) ds ≡ ok (b, sent)
      → (run 0 SamplerThread.new ps).1 ≡ samples_in J ds ++ rest
      → All (λ e. IsTaken ps e.tid e.value) b.samples.buffer
  unfolding run
  run-IsTaken pid life ps ds rest b sent o e fed =
      let all = run-AreTaken ps [] ps SamplerThread.new refl refl in
      let known =
        front-All (λ p. IsTaken ps p.0 p.1) (samples_in J ds) rest (subst (AreTaken ps) fed all) in
      subst (All (λ e. IsTaken ps e.tid e.value)) (sym (run-contents J pid life ds b sent o e).1)
        (pushed-All (IsTaken ps) ds known)
