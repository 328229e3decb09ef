-- ===== src/SamplerThread/Tests.antt =====
-- The theorems on the loop of src/sampler_thread.rs at concrete messages.
use profiler_rs.NativeStack
use profiler_rs.Prelude.{ℕ, ◌≡◌, refl, false, List, [], ◌∷◌, ok, err, ◌++◌, ap}
use profiler_rs.SamplerThread.{
  Sampler, could_not_suspend_thread, register_sampler, unregister_sampler, start_sampling, Poll,
  received, empty, SamplerThread, new, remove, handle, take_samples, send_samples, sent_before,
  on_empty, iterate, running, panicked, run,
}
use profiler_rs.SamplerThread.Control.{run-registered}
use profiler_rs.SamplerThread.Sends.{run_samples}

abbrev working : ℕ → Sampler
working tid = record { thread_id = tid; suspend_and_sample_thread = λ round. ok NativeStack.new }

abbrev failing : ℕ → Sampler
failing tid = record {
  thread_id = tid;
  suspend_and_sample_thread = λ round. err could_not_suspend_thread;
}

-- Three threads register, one of them leaves, and sampling starts.
abbrev test_polls : List (Poll × ℕ)
test_polls =
    (received (register_sampler (working 3)), 2)
    ∷ (received (register_sampler (failing 4)), 2)
    ∷ (received (register_sampler (working 5)), 2)
    ∷ (received start_sampling, 2)
    ∷ (empty, 2)
    ∷ (received (unregister_sampler 3), 2)
    ∷ []

abbrev test_state : SamplerThread
test_state = record { samplers = failing 4 ∷ working 5 ∷ []; is_paused = false }

test_run : (run 0 new test_polls).0 ≡ running test_state
unfolding run iterate handle remove on_empty send_samples sent_before take_samples new
test_run = refl

run-registered_example :
    (test_state.is_paused ≡ false) × (test_state.samplers ≡ failing 4 ∷ working 5 ∷ [])
run-registered_example = run-registered test_polls test_state test_run

-- One round samples threads 3 and 5; a later one, when thread 3 has left, thread 5 alone.
abbrev longer_polls : List (Poll × ℕ)
longer_polls = test_polls ++ (empty, 2) ∷ []

longer_run : run 0 new longer_polls ≡ (
  running test_state,
  (3, record { native_stack = NativeStack.new })
      ∷ (5, record { native_stack = NativeStack.new })
      ∷ (5, record { native_stack = NativeStack.new })
      ∷ [],
)
unfolding run iterate handle remove on_empty send_samples sent_before take_samples new
longer_run = refl

-- Threads 3 and 5 are sampled, and the buffer thread is gone behind the first send.
cut_run :
    run 0
      (record { samplers = working 3 ∷ failing 4 ∷ working 5 ∷ []; is_paused = false })
      ((empty, 1) ∷ (empty, 2) ∷ [])
    ≡ (panicked, (3, record { native_stack = NativeStack.new }) ∷ [])
unfolding run iterate on_empty send_samples sent_before take_samples
cut_run = refl

run_samples_example :
    (run 0 new longer_polls).1
    ≡ (3, record { native_stack = NativeStack.new })
      ∷ (5, record { native_stack = NativeStack.new })
      ∷ (5, record { native_stack = NativeStack.new })
      ∷ []
run_samples_example = run_samples longer_polls test_state (ap (λ r. r.0) longer_run)
