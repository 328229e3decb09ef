-- ===== src/Core/Tests.antt =====
-- The theorems on the core of src/core.rs in concrete interleavings.
use profiler_rs.Address
use profiler_rs.BufferThread
use profiler_rs.BufferThread.{handle, send}
use profiler_rs.Core.{
  MainThreadCore, ask_sample_count, ask_one_sample, request_message, counted, sampled, accept,
  ready, confused, disconnected, gone, initial, listens, sample, produce, ask, after_handle,
  buffer_round, finish, receive, Event, producing, asking, handling, receiving, step, run,
}
use profiler_rs.Core.Covers.{AreCovered, run-AreCovered}
use profiler_rs.Core.Moves.{AreRight}
use profiler_rs.Core.Progress.{WaitsForSample, run-settles}
use profiler_rs.Core.Replies.{run-core_cases, run-AreRight}
use profiler_rs.Json.Tests.{test_json}
use profiler_rs.Prelude.{◌≡◌, ◌≢◌, refl, arith, ◌++◌, List, [], ◌∷◌, ◌⊎◌}
use profiler_rs.SamplesSerializer.{Sample}
use profiler_rs.TimeExpiringBuffer
use profiler_rs.TimeExpiringBuffer.{push_back, push_back_at, len}

abbrev test_core : MainThreadCore
test_core = record { start_time = 0; sampling_interval = 10_000_000; registered_thread_info = [] }

abbrev one_frame : Sample
one_frame = record {
  native_stack = record {
    instruction_ptrs = record { value = 0x10 } ∷ Address.null ∷ [];
    stack_ptrs = Address.null ∷ Address.null ∷ [];
    count = 1;
  };
}

-- A wait for one sample that returns; then a count, during which another sample arrives.
abbrev test_events : List (Event test_json)
test_events =
    asking test_core ask_one_sample
    ∷ handling 10
    ∷ producing (sample 1 one_frame)
    ∷ handling 20
    ∷ receiving
    ∷ asking test_core ask_sample_count
    ∷ producing (sample 1 one_frame)
    ∷ handling 30
    ∷ receiving
    ∷ []

run-AreRight_example : AreRight test_json ((1, counted 1) ∷ (0, sampled) ∷ [])
unfolding run step produce ask buffer_round receive after_handle finish accept request_message
    listens initial handle send BufferThread.new TimeExpiringBuffer.new push_back push_back_at len
run-AreRight_example = run-AreRight test_json 7 100 test_events

run-AreCovered_example : AreCovered test_json ((1, counted 1) ∷ (0, sampled) ∷ [])
unfolding run step produce ask buffer_round receive after_handle finish accept request_message
    listens initial handle send BufferThread.new TimeExpiringBuffer.new push_back push_back_at len
run-AreCovered_example = run-AreCovered test_json 7 100 test_events

run-core_cases_example :
    let s = run test_json 7 (initial test_json 100) test_events in
    (s.core ≢ confused) × ((s.core ≢ disconnected) ⊎ (s.buffer ≡ gone))
run-core_cases_example = run-core_cases test_json 7 100 test_events

abbrev counting : List (Event test_json)
counting = producing (sample 1 one_frame) ∷ asking test_core ask_sample_count ∷ []

-- While the buffer thread handles the two messages, more samples arrive.
abbrev meanwhile : List (Event test_json)
meanwhile =
    producing (sample 1 one_frame)
    ∷ handling 10
    ∷ producing (sample 2 one_frame)
    ∷ handling 20
    ∷ producing (sample 1 one_frame)
    ∷ []

run-settles_example :
    let t =
      run test_json 7
        (run test_json 7 (initial test_json 100) counting)
        (meanwhile ++ receiving ∷ []) in
    (t.core ≡ ready)
    ⊎ (t.core ≡ disconnected)
    ⊎ ((ask_sample_count ≡ ask_one_sample) × WaitsForSample test_json t)
unfolding run step produce ask request_message initial
run-settles_example =
    run-settles test_json 7 100 1 counting meanwhile ask_sample_count refl
      (tt, (tt, (tt, (tt, (tt, tt))))) (omega arith)
