-- ===== src/Recording/Tests.antt =====
-- The theorem on the sampler thread and the buffer thread for a thread that is sampled twice.
use profiler_rs.Address
use profiler_rs.BufferThread
use profiler_rs.BufferThread.{
  BufferThreadMessage, add_sample, get_sample_count, SerializationMessage, sample_count,
  BufferThread, Delivery,
}
use profiler_rs.Json.Tests.{test_json}
use profiler_rs.NativeStack.{NativeStack}
use profiler_rs.Prelude.{ℕ, List, [], ◌∷◌, ◌++◌, ◌≡◌, refl, false, true, ok, arith, All}
use profiler_rs.Recording.{samples_in, IsTaken}
use profiler_rs.Recording.Taken.{run-IsTaken}
use profiler_rs.SamplerThread
use profiler_rs.SamplerThread.{
  Sampler, register_sampler, start_sampling, Poll, received, empty, handle, take_samples,
  send_samples, sent_before, on_empty, iterate,
}
use profiler_rs.TimeExpiringBuffer
use profiler_rs.TimeExpiringBuffer.{push_back, push_back_at, len}

abbrev one_frame : NativeStack
one_frame = record {
  instruction_ptrs = record { value = 0x10 } ∷ Address.null ∷ [];
  stack_ptrs = Address.null ∷ Address.null ∷ [];
  count = 1;
}

abbrev always : Sampler
always = record { thread_id = 1; suspend_and_sample_thread = λ round. ok one_frame }

abbrev polls : List (Poll × ℕ)
polls =
    (received (register_sampler always), 1)
    ∷ (received start_sampling, 1)
    ∷ (empty, 1)
    ∷ (empty, 1)
    ∷ []

-- The second sample is still in the channel.
abbrev deliveries : List (Delivery test_json)
deliveries =
    record {
      now = 10;
      core_alive = true;
      message = add_sample 1 (record { native_stack = one_frame });
    }
    ∷ record { now = 20; core_alive = true; message = get_sample_count }
    ∷ []

abbrev after_both : BufferThread test_json
after_both = record {
  markers = record { buffer = []; entry_lifetime = 100 };
  samples = record {
    buffer = record { tid = 1; created_at = 10; value = record { native_stack = one_frame } } ∷ [];
    entry_lifetime = 100;
  };
  is_waiting_for_one_sample = false;
}

buffer_run :
    BufferThread.run test_json 7 (BufferThread.new test_json 100) deliveries
    ≡ ok (after_both, sample_count 1 ∷ [])
unfolding BufferThread.run BufferThread.handle BufferThread.send BufferThread.new
    TimeExpiringBuffer.new push_back push_back_at len
buffer_run = refl

sampler_run :
    (SamplerThread.run 0 SamplerThread.new polls).1
    ≡ samples_in test_json deliveries ++ (1, record { native_stack = one_frame }) ∷ []
unfolding SamplerThread.run SamplerThread.new iterate handle on_empty send_samples sent_before
    take_samples
sampler_run = refl

run-IsTaken_example : All (λ e. IsTaken polls e.tid e.value) after_both.samples.buffer
run-IsTaken_example =
    run-IsTaken test_json 7 100 polls deliveries ((1, record { native_stack = one_frame }) ∷ [])
      after_both (sample_count 1 ∷ []) (omega arith, (omega arith, tt)) buffer_run sampler_run
