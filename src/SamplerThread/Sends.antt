-- ===== src/SamplerThread/Sends.antt =====
-- All the samples that the loop of src/sampler_thread.rs sends, from its messages and from what the
-- samplers answer in each round.
use profiler_rs.NativeStack.{NativeStack}
use profiler_rs.Prelude.{
  ℕ, ◌+◌, ◌≡◌, refl, List, [], ◌∷◌, ◌++◌, true, Result, ok, err, map, length, length-append, arith,
  ap, ap₂, sym, ◌∙◌, inl, inr, if◌then◌else◌, Result-cases,
}
use profiler_rs.SamplerThread.{
  SuspendAndSampleError, Sampler, Poll, received, empty, disconnected, SamplerThread, new,
  continues, take_samples, iterate, running, run,
}
use profiler_rs.SamplerThread.Control.{
  messages, paused_after, registered, on_empty_cases, handle_sends, run-registered,
}
use profiler_rs.SamplerThread.Rounds.{run_first, run-snoc}
use profiler_rs.SamplesSerializer.{Sample}

-- What the samplers answer in a round, each with its thread.
abbrev pub attempts : ℕ → List Sampler → List (ℕ × Result NativeStack SuspendAndSampleError)
attempts round ss = map (λ s. (s.thread_id, s.suspend_and_sample_thread round)) ss

-- The stacks among the answers.
abbrev pub successes : List (ℕ × Result NativeStack SuspendAndSampleError) → List (ℕ × Sample)
successes [] = []
successes ((tid, ok stack) ∷ rest) = (tid, record { native_stack = stack }) ∷ successes rest
successes ((tid, err _) ∷ rest) = successes rest

-- What a round sends, given the rounds before it.
abbrev pub sends_of : (before : List (Poll × ℕ)) → Poll × ℕ → List (ℕ × Sample)
sends_of before (received _, _) = []
sends_of before (disconnected, _) = []
sends_of before (empty, _) =
    if paused_after true (messages before)
    then []
    else successes (attempts (length before) (registered (messages before)))

-- What the later rounds send.
abbrev pub all_sends : (before after : List (Poll × ℕ)) → List (ℕ × Sample)
all_sends before [] = []
all_sends before (p ∷ after) = sends_of before p ++ all_sends (before ++ p ∷ []) after

take_samples-successes :
    (round : ℕ) (ss : List Sampler) → take_samples round ss ≡ successes (attempts round ss)
unfolding take_samples
take_samples-successes round [] = refl
take_samples-successes round (s ∷ ss) = elim (Result-cases (s.suspend_and_sample_thread round)) [
  | inl (_, e) ↦ rw (e, take_samples) (take_samples-successes round ss)
  | inr (stack, e) ↦
      rw (e, take_samples)
        (ap (◌∷◌ (s.thread_id, record { native_stack = stack })) (take_samples-successes round ss))
]

iterate-sends_of :
    (before : List (Poll × ℕ)) (t t' : SamplerThread) (p : Poll × ℕ) (sent : List (ℕ × Sample))
    → (run 0 new before).0 ≡ running t
    → iterate (length before) t p ≡ continues t' sent
    → sent ≡ sends_of before p
unfolding iterate
iterate-sends_of before t t' (received m, _) sent h e = handle_sends t t' m sent e
iterate-sends_of before t t' (disconnected, _) sent h e = cc
iterate-sends_of before t t' (empty, accepted) sent h e =
    let (paused, known) = run-registered before t h in
    elim (on_empty_cases (length before) accepted t t.is_paused) [
      | inl quiet ↦
          let same : sent ≡ (if t.is_paused then [] else take_samples (length before) t.samplers) =
            cc in
          same
          ∙ ap₂ (λ p l. if p then [] else l) paused
              (take_samples-successes (length before) t.samplers
                ∙ ap (λ ss. successes (attempts (length before) ss)) known)
      | inr (_, _, dead, _) ↦ cc
    ]

run-all_sends :
    (before after : List (Poll × ℕ)) (t u : SamplerThread)
    → (run 0 new before).0 ≡ running t
    → (run (length before) t after).0 ≡ running u
    → (run (length before) t after).1 ≡ all_sends before after
unfolding run
run-all_sends before [] t u h still = refl
run-all_sends before (p ∷ after) t u h still =
    let (t', sent, e, later) =
      run_first (length before) t u p after (iterate (length before) t p) refl still in
    let count : 0 + length before ≡ length before = omega arith in
    let longer = length-append before (p ∷ []) in
    let rest =
      run-all_sends (before ++ p ∷ []) after t' u
        (run-snoc 0 new t t' before p sent h (ap (λ n. iterate n t p) count ∙ e))
        (ap (λ n. (run n t' after).0) longer ∙ later) in
    rw (e, run)
      (ap₂ (◌++◌) (iterate-sends_of before t t' p sent h e)
        (ap (λ n. (run n t' after).1) (sym longer) ∙ rest))

-- While the thread runs, the samples that it has sent are, round by round and in order: none in a
-- round that handled a message; none in a round without a message if the sampling was paused then
-- (the last start or pause before it was a pause, or there was none); and otherwise, of each thread
-- that was registered then, in the order of registration, the stack that could be taken in that
-- round, where a thread of which none could be taken is passed over.
pub run_samples :
    (ps : List (Poll × ℕ)) (u : SamplerThread)
    → (run 0 new ps).0 ≡ running u
    → (run 0 new ps).1 ≡ all_sends [] ps
unfolding run
run_samples ps u still = run-all_sends [] ps new u refl still
