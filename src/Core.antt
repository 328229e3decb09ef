-- ===== src/Core.antt =====
-- The requests of `MainThreadCore` in src/core.rs, with the channels between the core, the buffer thread
-- and the threads that send markers and samples. The core's methods run on one thread and wait for
-- their reply, so between two of them the core is ready and within one it awaits one reply. A schedule
-- is a list of events: which part moves next is not determined.
mod Requests
mod Protocol
pub mod Moves
mod Progress
mod Silence
pub mod Quiet
mod Replies
pub mod Covers
pub mod Rounds
mod Tests
use profiler_rs.BufferThread
use profiler_rs.BufferThread.{
  BufferThread, ThreadInfo, CoreInfoForSerialization, BufferThreadMessage, add_marker, add_sample,
  serialize_buffer, get_sample_count, waiting_for_one_sample, SerializationMessage, serialize,
  sample_count, one_sample_received, handle,
}
use profiler_rs.Json.{Json}
use profiler_rs.Markers.{Marker}
use profiler_rs.Prelude.{
  ℕ, ◌+◌, List, [], ◌∷◌, ◌++◌, Bool, true, false, Option, none, some, Result, ok, err,
}
use profiler_rs.Registrar.{PerThreadInstrumentation, Ending, finished, panicked, thread_infos}
use profiler_rs.SamplesSerializer.{Sample, Fault}
use profiler_rs.SamplesSerializer.Tables.{as_millis}

-- The fields that `serialize` reads. A registrar may change the infos between two calls.
pub record MainThreadCore : Type 0 where
  pub start_time : ℕ
  pub sampling_interval : ℕ
  pub registered_thread_info : List (Option ThreadInfo)

-- `get_sample_count`, `serialize` and `wait_for_one_sample`.
pub data Request : Type 0 where
  ask_sample_count ask_serialize ask_one_sample : Request

unfoldable pub core_info : MainThreadCore → CoreInfoForSerialization
core_info c = record {
  start_time = c.start_time;
  sampling_interval = as_millis c.sampling_interval;
  thread_infos = thread_infos c.registered_thread_info;
}

module _ (J : Json) where
  open J use {Value}

  -- What the method sends first.
  unfoldable pub request_message : MainThreadCore → Request → BufferThreadMessage J
  request_message c ask_sample_count = get_sample_count
  request_message c ask_serialize = serialize_buffer (core_info c)
  request_message c ask_one_sample = waiting_for_one_sample

  -- What the method returns.
  pub data Answer : Type 0 where
    counted : ℕ → Answer
    profiled : Value → Answer
    sampled : Answer

  -- The `match` on the reply; `none` is the panic on a reply of another kind.
  unfoldable pub accept : Request → SerializationMessage J → Option Answer
  accept ask_sample_count (sample_count size) = some (counted size)
  accept ask_sample_count (serialize _) = none
  accept ask_sample_count one_sample_received = none
  accept ask_serialize (serialize profile) = some (profiled profile)
  accept ask_serialize (sample_count _) = none
  accept ask_serialize one_sample_received = none
  accept ask_one_sample one_sample_received = some sampled
  accept ask_one_sample (serialize _) = none
  accept ask_one_sample (sample_count _) = none

  -- Where the core stands. `asked` is how many samples had been sent when the request was made.
  pub data CoreState : Type 0 where
    ready : CoreState
    awaiting : Request → (asked : ℕ) → CoreState
    -- The panics: on a reply of another kind, and on a channel whose other end is gone.
    confused disconnected : CoreState

  pub data BufferState : Type 0 where
    alive : BufferThread J → BufferState
    gone : BufferState

  pub record System : Type 0 where
    pub core : CoreState
    pub buffer : BufferState
    pub queue : List (BufferThreadMessage J)
    pub replies : List (SerializationMessage J)
    -- For the statements: the samples that were sent, and what the requests returned, with `asked`.
    pub sent_samples : ℕ
    pub answers : List (ℕ × Answer)

  -- `MainThreadCore::new`.
  unfoldable pub initial : (entry_lifetime : ℕ) → System
  initial entry_lifetime = record {
    core = ready;
    buffer = alive (BufferThread.new J entry_lifetime);
    queue = [];
    replies = [];
    sent_samples = 0;
    answers = [];
  }

  -- The core listens until it panics.
  unfoldable pub listens : CoreState → Bool
  listens ready = true
  listens (awaiting _ _) = true
  listens confused = false
  listens disconnected = false

  -- What other threads send: `add_marker` on a thread, and the sampler thread.
  pub data Produced : Type 0 where
    marker : (tid : ℕ) → Marker J → Produced
    sample : (tid : ℕ) → Sample → Produced

  -- A message for the buffer thread; if that is gone, the sender panics, and the system stays.
  unfoldable pub produce : BufferState → Produced → System → System
  produce (alive _) (marker tid m) s = record s { queue = s.queue ++ add_marker tid m ∷ [] }
  produce (alive _) (sample tid v) s = record s {
    queue = s.queue ++ add_sample tid v ∷ [];
    sent_samples = s.sent_samples + 1;
  }
  produce gone _ s = s

  -- The first half of a request: `send(..).expect(..)`, from a core that is ready.
  unfoldable pub ask : CoreState → BufferState → MainThreadCore → Request → System → System
  ask ready (alive _) c r s = record s {
    queue = s.queue ++ request_message c r ∷ [];
    core = awaiting r s.sent_samples;
  }
  ask ready gone c r s = record s { core = disconnected }
  ask (awaiting _ _) _ c r s = s
  ask confused _ c r s = s
  ask disconnected _ c r s = s

  -- A round of the buffer thread: a panic ends the thread, and what was queued is lost.
  unfoldable pub after_handle :
      System
      → List (BufferThreadMessage J)
      → Result (BufferThread J × List (SerializationMessage J)) Fault
      → System
  after_handle s rest (ok (b, sent)) = record s {
    buffer = alive b;
    queue = rest;
    replies = s.replies ++ sent;
  }
  after_handle s rest (err _) = record s { buffer = gone; queue = [] }

  unfoldable pub buffer_round :
      (pid now : ℕ) → BufferState → List (BufferThreadMessage J) → System → System
  unfolding after_handle
  buffer_round pid now gone queue s = s
  buffer_round pid now (alive b) [] s = s
  buffer_round pid now (alive b) (m ∷ rest) s =
      after_handle s rest (handle J pid now (listens s.core) b m)

  -- The second half of a request: `recv().expect(..)`, then the `match`.
  unfoldable pub finish :
      System → (asked : ℕ) → List (SerializationMessage J) → Option Answer → System
  finish s asked rest none = record s { core = confused; replies = rest }
  finish s asked rest (some answer) = record s {
    core = ready;
    replies = rest;
    answers = (asked, answer) ∷ s.answers;
  }

  unfoldable pub receive : CoreState → BufferState → List (SerializationMessage J) → System → System
  unfolding finish
  receive (awaiting r asked) _ (m ∷ rest) s = finish s asked rest (accept r m)
  receive (awaiting r asked) gone [] s = record s { core = disconnected }
  receive (awaiting r asked) (alive _) [] s = s
  receive ready _ _ s = s
  receive confused _ _ s = s
  receive disconnected _ _ s = s

  pub data Event : Type 0 where
    producing : Produced → Event
    asking : MainThreadCore → Request → Event
    handling : (now : ℕ) → Event
    receiving : Event

  unfoldable pub step : (pid : ℕ) → System → Event → System
  unfolding produce ask buffer_round receive
  step pid s (producing p) = produce s.buffer p s
  step pid s (asking c r) = ask s.core s.buffer c r s
  step pid s (handling now) = buffer_round pid now s.buffer s.queue s
  step pid s receiving = receive s.core s.buffer s.replies s

  pub run : (pid : ℕ) → System → List Event → System
  run pid s [] = s
  run pid s (e ∷ es) = run pid (step pid s e) es

  -- `add_marker`, by the calling thread's local value: a thread that is not registered does nothing.
  pub add_marker_by :
      (instrumentation : Option PerThreadInstrumentation)
      → Marker J
      → BufferState
      → System
      → Ending × System
  unfolding produce
  add_marker_by none m buffer s = (finished, s)
  add_marker_by (some i) m (alive b) s = (finished, produce (alive b) (marker i.tid m) s)
  add_marker_by (some i) m gone s = (panicked, s)
