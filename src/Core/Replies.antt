-- ===== src/Core/Replies.antt =====
-- What the requests of the core in src/core.rs return, in every interleaving with the other threads.
use profiler_rs.BufferThread.{BufferThreadMessage, SerializationMessage}
use profiler_rs.Core.{CoreState, confused, disconnected, BufferState, gone, initial, Event, run}
use profiler_rs.Core.Protocol.{Pending, idle, queued, waiting, answered, lost, down}
use profiler_rs.Json.{Json}
use profiler_rs.Prelude.{ℕ, ◌≤◌, ◌≡◌, ◌≢◌, refl, List, arith, ◌⊎◌, inl, inr}
use profiler_rs.Core.Moves.{AreRight, sampled_in}
use profiler_rs.Core.Rounds.{initial-Inv, run-Inv}

module _ (J : Json) where
  core_cases :
      {core : CoreState J} {buffer : BufferState J} {queue : List (BufferThreadMessage J)}
      {replies : List (SerializationMessage J)}
      → Pending J core buffer queue replies
      → (core ≢ confused) × ((core ≢ disconnected) ⊎ (buffer ≡ gone))
  core_cases (idle _ _) = ((λ e. cc), inl (λ e. cc))
  core_cases (queued _ _ _ _ _ _ _ _) = ((λ e. cc), inl (λ e. cc))
  core_cases (waiting _ _) = ((λ e. cc), inl (λ e. cc))
  core_cases (answered _ _ _ _ _) = ((λ e. cc), inl (λ e. cc))
  core_cases lost = ((λ e. cc), inl (λ e. cc))
  core_cases down = ((λ e. cc), inr refl)

  -- In every interleaving of the core with the other threads, from the start: the core never finds a
  -- reply of another kind than that of its request, and a panic of one of its channels means that the
  -- buffer thread is gone.
  pub run-core_cases :
      (pid life : ℕ) (es : List (Event J))
      → let s = run J pid (initial J life) es in
        (s.core ≢ confused) × ((s.core ≢ disconnected) ⊎ (s.buffer ≡ gone))
  run-core_cases pid life es =
      core_cases (run-Inv J pid (initial J life) es (initial-Inv J life)).pending

  -- In every interleaving, each `get_sample_count` that returns has counted exactly the samples that
  -- had been sent to the buffer thread when it was called.
  pub run-AreRight :
      (pid life : ℕ) (es : List (Event J)) → AreRight J (run J pid (initial J life) es).answers
  run-AreRight pid life es = (run-Inv J pid (initial J life) es (initial-Inv J life)).right

  -- In every interleaving, `wait_for_one_sample` has not returned more often than a sample was sent.
  pub run-sampled_in :
      (pid life : ℕ) (es : List (Event J))
      → let s = run J pid (initial J life) es in sampled_in J s.answers ≤ s.sent_samples
  run-sampled_in pid life es =
      omega (arith, (run-Inv J pid (initial J life) es (initial-Inv J life)).waited)
