-- ===== src/BufferThread/Tests.antt =====
-- The theorems on src/buffer_thread.rs at concrete messages.
use profiler_rs.Address
use profiler_rs.Address.{ProcessMemoryAddress}
use profiler_rs.BufferThread.{
  ThreadInfo, CoreInfoForSerialization, BufferThreadMessage, add_marker, add_sample,
  clear_expired_markers, serialize_buffer, get_sample_count, waiting_for_one_sample, serialize,
  sample_count, one_sample_received, BufferThread, new, profile, serialize_buffer_value, handle,
  send, Delivery, run,
}
use profiler_rs.BufferThread.Contents.{run-contents}
use profiler_rs.BufferThread.Serializing.{
  IsSerializable, thread_value-ok, serialize_buffer_outcome, handle_outcome,
}
use profiler_rs.BufferThread.Profiles.{ProfileOf, run-profile}
use profiler_rs.BufferThread.Waiting.{count_waits, run-count_received, run_answers_wait}
use profiler_rs.BufferThread.Strings.{object_with, Linked, thread_value-Linked}
use profiler_rs.Json.Tests.{test_json}
use profiler_rs.Markers.{Marker, static_string_marker, markers_table}
use profiler_rs.Markers.Names.{static_string_marker-IsInterning}
use profiler_rs.SamplesSerializer
use profiler_rs.SamplesSerializer.Tables.{serialize_samples, frames_table}
use profiler_rs.StringTable.{StringTable}
use profiler_rs.Prelude.{
  ℕ, ◌≤◌, ◌≡◌, refl, true, false, arith, List, [], ◌∷◌, ok, err, ap, ◌>>=◌, length, All,
}
use profiler_rs.SamplesSerializer.{Sample, SamplesSerializer, panicked}
use profiler_rs.TimeExpiringBuffer
use profiler_rs.TimeExpiringBuffer.{
  BufferEntry, TimeExpiringBuffer, push_back, push_back_at, remove_expired, iter_thread, len,
}

abbrev test_marker : Marker test_json
test_marker = static_string_marker test_json (record { string = "Marker" })

-- A stack with one frame, and one with none.
abbrev one_frame : Sample
one_frame = record {
  native_stack = record {
    instruction_ptrs = record { value = 0x10 } ∷ Address.null ∷ [];
    stack_ptrs = Address.null ∷ Address.null ∷ [];
    count = 1;
  };
}

abbrev no_frame : Sample
no_frame = record {
  native_stack = record {
    instruction_ptrs = Address.null ∷ Address.null ∷ [];
    stack_ptrs = Address.null ∷ Address.null ∷ [];
    count = 0;
  };
}

abbrev delivery : ℕ → BufferThreadMessage test_json → Delivery test_json
delivery now message = record { now = now; core_alive = true; message = message }

abbrev test_deliveries : List (Delivery test_json)
test_deliveries =
    delivery 10 (add_marker 1 test_marker)
    ∷ delivery 20 waiting_for_one_sample
    ∷ delivery 30 (add_sample 1 one_frame)
    ∷ delivery 40 (add_sample 2 no_frame)
    ∷ delivery 200 (add_marker 1 test_marker)
    ∷ delivery 210 clear_expired_markers
    ∷ []

abbrev entry_of {ℓ} : {A : Type ℓ} → ℕ → ℕ → A → BufferEntry A
entry_of tid created_at value = record { tid = tid; created_at = created_at; value = value }

abbrev test_state : BufferThread test_json
test_state = record {
  markers = record { buffer = entry_of 1 200 test_marker ∷ []; entry_lifetime = 100 };
  samples = record {
    buffer = entry_of 1 30 one_frame ∷ entry_of 2 40 no_frame ∷ [];
    entry_lifetime = 100;
  };
  is_waiting_for_one_sample = false;
}

test_run :
    run test_json 7 (new test_json 100) test_deliveries ≡ ok (test_state, one_sample_received ∷ [])
unfolding run handle send new TimeExpiringBuffer.new push_back push_back_at remove_expired
test_run = refl

run-contents_example :
    (test_state.markers.buffer ≡ entry_of 1 200 test_marker ∷ [])
    × (test_state.samples.buffer ≡ entry_of 1 30 one_frame ∷ entry_of 2 40 no_frame ∷ [])
run-contents_example =
    run-contents test_json 7 100 test_deliveries test_state (one_sample_received ∷ [])
      (omega arith, (omega arith, (omega arith, (omega arith, (omega arith, (omega arith, tt))))))
      test_run

run-count_received_example : 1 ≤ count_waits test_json test_deliveries
run-count_received_example =
    run-count_received test_json 7 100 test_deliveries test_state (one_sample_received ∷ [])
      test_run

abbrev waiting : BufferThread test_json
waiting = record test_state { is_waiting_for_one_sample = true }

nothing_yet :
    run test_json 7 waiting (delivery 310 get_sample_count ∷ []) ≡ ok (waiting, sample_count 2 ∷ [])
unfolding run handle send len
nothing_yet = refl

run_answers_wait_example :
    handle test_json 7 320 true waiting (add_sample 1 one_frame)
    ≡ ok (
      record {
        markers = test_state.markers;
        samples = push_back 320 test_state.samples 1 one_frame;
        is_waiting_for_one_sample = false;
      },
      one_sample_received ∷ [],
    )
run_answers_wait_example =
    (run_answers_wait test_json 7 waiting waiting (delivery 310 get_sample_count ∷ [])
        (sample_count 2 ∷ []) refl refl nothing_yet).1
      320 1 one_frame

-- Threads 1 and 2, of which the second's first sample has no frame.
abbrev good : CoreInfoForSerialization
good = record {
  start_time = 0;
  sampling_interval = 10;
  thread_infos = record { id = 1; name = "Main" } ∷ [];
}

abbrev both : CoreInfoForSerialization
both = record {
  start_time = 0;
  sampling_interval = 10;
  thread_infos = record { id = 1; name = "Main" } ∷ record { id = 2; name = "Other" } ∷ [];
}

good-IsSerializable : All (IsSerializable test_json test_state) good.thread_infos
unfolding iter_thread Address.is_null
good-IsSerializable = ((λ e. cc), tt)

serialize_buffer_outcome_example :
    (threads : List test_json.Value) × (serialize_buffer_value test_json 7 test_state good
      ≡ ok (profile test_json 10 threads))
    × (length threads ≡ 1)
serialize_buffer_outcome_example =
    (serialize_buffer_outcome test_json 7 test_state good).0 good-IsSerializable

both_panic : handle test_json 7 330 true test_state (serialize_buffer both) ≡ err panicked
unfolding handle iter_thread Address.is_null
both_panic =
    ap (λ m. m >>= λ v. send test_json true test_state (serialize v))
      ((serialize_buffer_outcome test_json 7 test_state both).1 (λ h. h.1.0 refl))

handle_outcome_example :
    (core_info : CoreInfoForSerialization) × ◌≡◌ {A = BufferThreadMessage test_json}
      (serialize_buffer both)
      (serialize_buffer core_info)
    × (¬ All (IsSerializable test_json test_state) core_info.thread_infos)
handle_outcome_example =
    handle_outcome test_json 7 330 test_state (serialize_buffer both) both_panic

abbrev main : ThreadInfo
main = record { id = 1; name = "Main" }

-- The value of thread 1.
abbrev main_value : test_json.Value
main_value = (thread_value-ok test_json 7 0 test_state main good-IsSerializable.0).0

thread_value-Linked_example :
    (s : SamplesSerializer) × (samples : test_json.Value) × (markers frames : List test_json.Value)
    × (t : StringTable) × (SamplesSerializer.new 0 test_state.samples 1 ≡ ok s)
    × (serialize_samples test_json s 1 ≡ ok samples)
    × (main_value
        ≡ object_with test_json 7 main s
            (markers_table test_json markers)
            samples
            (frames_table test_json frames)
            t)
    × Linked test_json 0 test_state main s markers frames t
unfolding iter_thread
thread_value-Linked_example =
    thread_value-Linked test_json 7 0 test_state main main_value
      (static_string_marker-IsInterning test_json (record { string = "Marker" }), tt)
      (thread_value-ok test_json 7 0 test_state main good-IsSerializable.0).1

run-profile_example :
    ProfileOf test_json 7 test_state good
      (entry_of 1 200 test_marker ∷ [])
      (entry_of 1 30 one_frame ∷ entry_of 2 40 no_frame ∷ [])
unfolding iter_thread
run-profile_example =
    run-profile test_json 7 100 test_deliveries test_state (one_sample_received ∷ []) good
      (omega arith, (omega arith, (omega arith, (omega arith, (omega arith, (omega arith, tt))))))
      test_run
      (
        static_string_marker-IsInterning test_json (record { string = "Marker" }),
        (static_string_marker-IsInterning test_json (record { string = "Marker" }), tt),
      )
      good-IsSerializable
