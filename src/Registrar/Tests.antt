-- ===== src/Registrar/Tests.antt =====
-- The theorems on the registrars of src/core.rs at concrete calls.
use profiler_rs.NativeStack
use profiler_rs.Prelude.{ℕ, ◌≡◌, refl, [], ◌∷◌, List, true, false, ok, ◌++◌}
use profiler_rs.Registrar.{
  ThreadRegistrar, finished, panicked, new, get_thread_registrar, set_instrumentation, announce,
  take_senders, register, unregister_by, unregister_thread, begin_sampling,
}
use profiler_rs.Registrar.Agreement.{
  is_some, Call, get, enter, drop, begin, call, calls, calls_agree,
}
use profiler_rs.Registrar.Drops.{unregister_thread_cases}
use profiler_rs.SamplerThread.{
  Sampler, SamplerThread, Poll, received, empty, register_sampler, unregister_sampler,
  start_sampling, take_samples,
}
use profiler_rs.SamplerThread

abbrev mac_sampler : ℕ → Sampler
mac_sampler thread = record {
  thread_id = thread;
  suspend_and_sample_thread = λ round. ok NativeStack.new;
}

abbrev registrar : ℕ → ThreadRegistrar
registrar place = record {
  buffer_thread_sender = true;
  sampler_thread_sender = true;
  thread_info = place;
}

-- Threads 3 and 4 enter, and thread 3 leaves.
abbrev test_calls : List Call
test_calls =
    get
    ∷ get
    ∷ enter true 3 "Main" (registrar 0)
    ∷ enter true 4 "Other" (registrar 1)
    ∷ begin true
    ∷ drop true 3
    ∷ []

abbrev test_polls : List (Poll × ℕ)
test_polls =
    (received (register_sampler (mac_sampler 3)), 2)
    ∷ (received (register_sampler (mac_sampler 4)), 2)
    ∷ (received start_sampling, 2)
    ∷ (empty, 2)
    ∷ (received (unregister_sampler 3), 2)
    ∷ []

abbrev test_state : SamplerThread
test_state = record { samplers = mac_sampler 4 ∷ []; is_paused = false }

test_run : (SamplerThread.run 0 SamplerThread.new test_polls).0 ≡ SamplerThread.running test_state
unfolding SamplerThread.run SamplerThread.iterate SamplerThread.handle SamplerThread.remove
    SamplerThread.on_empty SamplerThread.send_samples SamplerThread.sent_before
    SamplerThread.take_samples SamplerThread.new
test_run = refl

calls_agree_example : true ≡ is_some ((calls mac_sampler new test_calls).instrumentation 4)
unfolding calls call new get_thread_registrar register take_senders announce set_instrumentation
    unregister_thread unregister_by begin_sampling
calls_agree_example =
    calls_agree mac_sampler (λ t. refl) test_calls test_polls test_state 4 refl test_run

-- Thread 4 is inside the profiler, and leaves.
unregister_thread_cases_example :
    let c = calls mac_sampler new test_calls in
    ((unregister_thread true 4 c).0 ≡ finished)
    × ((unregister_thread true 4 c).1.sent ≡ c.sent ++ unregister_sampler 4 ∷ [])
    × ((unregister_thread true 4 (unregister_thread true 4 c).1).0 ≡ panicked)
unregister_thread_cases_example = unregister_thread_cases mac_sampler test_calls true true 4
