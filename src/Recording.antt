-- ===== src/Recording.antt =====
-- The sampler thread of src/sampler_thread.rs and the buffer thread of src/buffer_thread.rs together: the
-- samples that the one sends reach the other in their order, among messages from elsewhere.
mod Taken
mod Tests
use profiler_rs.BufferThread.{
  BufferThreadMessage, add_marker, add_sample, clear_expired_markers, serialize_buffer,
  get_sample_count, waiting_for_one_sample, Delivery,
}
use profiler_rs.Json.{Json}
use profiler_rs.Prelude.{ℕ, List, [], ◌∷◌, ◌++◌, ◌≡◌, ◌⊎◌, ok, Bool, true, false, length}
use profiler_rs.SamplerThread.{Sampler, Poll, empty}
use profiler_rs.SamplerThread.Control.{messages, paused_after, registered}
use profiler_rs.SamplesSerializer.{Sample}

module _ (J : Json) where
  abbrev pub sample_of : BufferThreadMessage J → List (ℕ × Sample)
  sample_of (add_sample tid s) = (tid, s) ∷ []
  sample_of (add_marker _ _) = []
  sample_of clear_expired_markers = []
  sample_of (serialize_buffer _) = []
  sample_of get_sample_count = []
  sample_of waiting_for_one_sample = []

  -- The samples among the messages.
  abbrev pub samples_in : List (Delivery J) → List (ℕ × Sample)
  samples_in [] = []
  samples_in (d ∷ ds) = sample_of d.message ++ samples_in ds

abbrev pub IsIn : Sampler → List Sampler → Type 0
IsIn s [] = ⊥
IsIn s (x ∷ xs) = (x ≡ s) ⊎ IsIn s xs

-- A sample with its thread, taken in a round with no message: the messages of the rounds before leave
-- the sampler registered and the sampling started.
pub record IsTaken (ps : List (Poll × ℕ)) (tid : ℕ) (sample : Sample) : Type 0 where
  pub before : List (Poll × ℕ)
  pub after : List (Poll × ℕ)
  pub accepted : ℕ
  pub split : ps ≡ before ++ (empty, accepted) ∷ after
  pub sampler : Sampler
  pub is_registered : IsIn sampler (registered (messages before))
  pub is_started : paused_after true (messages before) ≡ false
  pub same_thread : sampler.thread_id ≡ tid
  pub taken : sampler.suspend_and_sample_thread (length before) ≡ ok sample.native_stack
