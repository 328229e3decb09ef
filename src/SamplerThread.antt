-- ===== src/SamplerThread.antt =====
-- src/sampler_thread.rs: the thread that samples the registered threads. Each round of the loop is
-- given what the channel yields and how many sends the buffer thread accepts; a sampler is the thread
-- that it samples and the outcome of sampling it in each round.
pub mod Control
pub mod Rounds
mod Sends
mod Tests
use profiler_rs.NativeStack.{NativeStack}
use profiler_rs.Prelude.{
  ℕ, zero, suc, ◌+◌, List, [], ◌∷◌, ◌++◌, Bool, true, false, not, Result, ok, err, ◌==◌, keep,
  if◌then◌else◌,
}
use profiler_rs.SamplesSerializer.{Sample}

pub data SuspendAndSampleError : Type 0 where
  could_not_suspend_thread could_not_get_registers could_not_resume_thread : SuspendAndSampleError

-- The trait `Sampler`: the round stands for the moment of the call.
pub record Sampler : Type 0 where
  pub thread_id : ℕ
  pub suspend_and_sample_thread : (round : ℕ) → Result NativeStack SuspendAndSampleError

pub data SamplerThreadMessage : Type 0 where
  register_sampler : Sampler → SamplerThreadMessage
  unregister_sampler : ℕ → SamplerThreadMessage
  pause_sampling start_sampling stop_sampling : SamplerThreadMessage

-- What `recv` or `try_recv` finds: `recv` waits while the channel is empty.
pub data Poll : Type 0 where
  received : SamplerThreadMessage → Poll
  empty disconnected : Poll

pub record SamplerThread : Type 0 where
  pub samplers : List Sampler
  pub is_paused : Bool

unfoldable pub new : SamplerThread
new = record { samplers = []; is_paused = true }

-- How a round ends: with the samples sent to the buffer thread, with `return`, or with a panic behind
-- the samples sent before it.
pub data Round : Type 0 where
  continues : SamplerThread → List (ℕ × Sample) → Round
  returns : Round
  panics : List (ℕ × Sample) → Round

-- `samplers.drain(..).filter(|sampler| sampler.thread_id() != thread_id)`.
unfoldable pub remove : ℕ → List Sampler → List Sampler
remove thread_id = keep (λ sampler. not (sampler.thread_id == thread_id))

unfoldable pub handle : SamplerThread → SamplerThreadMessage → Round
unfolding remove
handle t (register_sampler sampler) =
    continues (record t { samplers = t.samplers ++ sampler ∷ [] }) []
handle t (unregister_sampler thread_id) =
    continues (record t { samplers = remove thread_id t.samplers }) []
handle t stop_sampling = returns
handle t pause_sampling = continues (record t { is_paused = true }) []
handle t start_sampling = continues (record t { is_paused = false }) []

-- The loop over the samplers: a failure is passed over.
unfoldable pub take_samples : (round : ℕ) → List Sampler → List (ℕ × Sample)
take_samples round [] = []
take_samples round (sampler ∷ rest) = elim (sampler.suspend_and_sample_thread round) [
  | ok native_stack ↦
      (sampler.thread_id, record { native_stack = native_stack }) ∷ take_samples round rest
  | err _ ↦ take_samples round rest
]

-- A round that sent one sample more, before the others.
unfoldable pub sent_before : ℕ × Sample → Round → Round
sent_before sample (continues t sent) = continues t (sample ∷ sent)
sent_before sample returns = returns
sent_before sample (panics sent) = panics (sample ∷ sent)

-- Each sample is sent in turn, which panics when the buffer thread is gone: it listens to as many
-- sends as are accepted.
unfoldable pub send_samples : (accepted : ℕ) → SamplerThread → List (ℕ × Sample) → Round
unfolding sent_before
send_samples accepted t [] = continues t []
send_samples zero t (_ ∷ _) = panics []
send_samples (suc accepted) t (sample ∷ rest) = sent_before sample (send_samples accepted t rest)

-- No message: `recv` goes on waiting, `try_recv` lets the round take samples.
unfoldable pub on_empty : (round : ℕ) → (accepted : ℕ) → SamplerThread → (is_paused : Bool) → Round
unfolding send_samples
on_empty round accepted t true = continues t []
on_empty round accepted t false = send_samples accepted t (take_samples round t.samplers)

unfoldable pub iterate : (round : ℕ) → SamplerThread → Poll × ℕ → Round
unfolding handle on_empty
iterate round t (received message, accepted) = handle t message
iterate round t (empty, accepted) = on_empty round accepted t t.is_paused
iterate round t (disconnected, accepted) = returns

-- How the thread's loop stands after some rounds, with all the samples that it sent.
pub data Status : Type 0 where
  running : SamplerThread → Status
  returned : Status
  panicked : Status

unfoldable pub run : (round : ℕ) → SamplerThread → List (Poll × ℕ) → Status × List (ℕ × Sample)
run round t [] = (running t, [])
run round t (p ∷ ps) = elim (iterate round t p) [
  | continues t' sent ↦ let (s, more) = run (round + 1) t' ps in (s, sent ++ more)
  | returns ↦ (returned, [])
  | panics sent ↦ (panicked, sent)
]
