-- ===== src/OutputJson/Tests.antt =====
-- A run of the calls of examples/output-json.rs with one wait, with a sample from a thread.
use profiler_rs.Address
use profiler_rs.BufferThread
use profiler_rs.BufferThread.{handle, send, serialize_buffer_value, thread_values}
use profiler_rs.Core.{
  MainThreadCore, core_info, request_message, accept, ready, initial, listens, sample, produce, ask,
  after_handle, buffer_round, finish, receive, step,
}
use profiler_rs.Json.Tests.{test_json}
use profiler_rs.OutputJson.{
  requests, Turn, main_moves, sends, handles, Program, start, main_step, take_turn, run_main,
}
use profiler_rs.OutputJson.Count.{IsPrinted, run_main-IsPrinted}
use profiler_rs.Prelude.{◌≡◌, refl, List, [], ◌∷◌}
use profiler_rs.Registrar.{thread_infos}
use profiler_rs.SamplesSerializer.{Sample}
use profiler_rs.TimeExpiringBuffer
use profiler_rs.TimeExpiringBuffer.{push_back, push_back_at, len}

abbrev main_core : MainThreadCore
main_core = record { start_time = 0; sampling_interval = 10_000_000; registered_thread_info = [] }

abbrev one_frame : Sample
one_frame = record {
  native_stack = record {
    instruction_ptrs = record { value = 0x10 } ∷ Address.null ∷ [];
    stack_ptrs = Address.null ∷ Address.null ∷ [];
    count = 1;
  };
}

-- Each call, its message, and its reply.
abbrev turns : List (Turn test_json)
turns =
    main_moves main_core
    ∷ handles 10
    ∷ sends (sample 1 one_frame)
    ∷ handles 20
    ∷ main_moves main_core
    ∷ main_moves main_core
    ∷ handles 30
    ∷ main_moves main_core
    ∷ main_moves main_core
    ∷ handles 40
    ∷ main_moves main_core
    ∷ []

abbrev ended : Program test_json
ended = run_main test_json 7 (start test_json 100 (requests 1)) turns

nothing_left : ended.rest ≡ []
unfolding run_main take_turn main_step start step produce ask buffer_round receive after_handle
    finish accept request_message listens initial handle send BufferThread.new
    TimeExpiringBuffer.new push_back push_back_at len serialize_buffer_value thread_values core_info
    thread_infos
nothing_left = refl

back : ended.system.core ≡ ready
unfolding run_main take_turn main_step start step produce ask buffer_round receive after_handle
    finish accept request_message listens initial handle send BufferThread.new
    TimeExpiringBuffer.new push_back push_back_at len serialize_buffer_value thread_values core_info
    thread_infos
back = refl

run_main-IsPrinted_example : IsPrinted test_json 1 ended.system.answers
run_main-IsPrinted_example = run_main-IsPrinted test_json 7 100 1 turns nothing_left back
