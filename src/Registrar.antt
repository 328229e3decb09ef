-- ===== src/Registrar.antt =====
-- `ThreadRegistrar` of src/core.rs: how a thread enters and leaves the profiler. The id of the thread
-- that makes a call, the sampler that `MacOsSampler::new` gives for it, and whether the sampler
-- thread still listens, are arguments. What is shared is the state: the infos that the registrars
-- co-own with the core, one place each, the thread-local values, and what was sent.
mod Agreement
mod Drops
mod Tests
use profiler_rs.BufferThread.{ThreadInfo}
use profiler_rs.Prelude.{
  ℕ, List, [], ◌∷◌, ◌++◌, Bool, true, false, Option, none, some, String, ◌==◌, if◌then◌else◌,
  length, set,
}
use profiler_rs.SamplerThread.{
  Sampler, SamplerThreadMessage, register_sampler, unregister_sampler, start_sampling,
}

-- `PerThreadInstrumentation`; its senders are the program's two channels.
pub record PerThreadInstrumentation : Type 0 where
  pub tid : ℕ

-- Whether each sender is still there, and the place of the info.
pub record ThreadRegistrar : Type 0 where
  pub buffer_thread_sender : Bool
  pub sampler_thread_sender : Bool
  pub thread_info : ℕ

pub record Shared : Type 0 where
  pub registered_thread_info : List (Option ThreadInfo)
  pub instrumentation : ℕ → Option PerThreadInstrumentation
  pub sent : List SamplerThreadMessage

pub data Ending : Type 0 where
  finished panicked : Ending

-- The part of `MainThreadCore::new` that is shared.
pub new : Shared
new = record { registered_thread_info = []; instrumentation = λ thread. none; sent = [] }

pub get_thread_registrar : Shared → ThreadRegistrar × Shared
get_thread_registrar c = (
  record {
    buffer_thread_sender = true;
    sampler_thread_sender = true;
    thread_info = length c.registered_thread_info;
  },
  record c { registered_thread_info = c.registered_thread_info ++ none ∷ [] },
)

-- The infos that `MainThreadCore::serialize` passes on: those that are set.
unfoldable pub thread_infos : List (Option ThreadInfo) → List ThreadInfo
thread_infos [] = []
thread_infos (none ∷ rest) = thread_infos rest
thread_infos (some info ∷ rest) = info ∷ thread_infos rest

-- The thread-local value of one thread.
pub set_instrumentation : ℕ → Option PerThreadInstrumentation → Shared → Shared
set_instrumentation thread value c = record c {
  instrumentation = λ t. if t == thread then value else c.instrumentation t;
}

-- `send(..).expect(..)`, then the thread-local value.
pub announce : (alive : Bool) → Sampler → (thread : ℕ) → Shared → Ending × Shared
unfolding set_instrumentation
announce false sampler thread c = (panicked, c)
announce true sampler thread c = (
  finished,
  set_instrumentation thread (some (record { tid = thread }))
      (record c { sent = c.sent ++ register_sampler sampler ∷ [] }),
)

-- The two `take().expect(..)`, on the registrar's senders.
pub take_senders :
    (alive : Bool)
    → Sampler
    → (thread : ℕ) → ThreadRegistrar
    → Shared
    → (buffer_sender sampler_sender : Bool) → Ending × ThreadRegistrar × Shared
unfolding announce
take_senders alive sampler thread r c false sampler_sender = (panicked, r, c)
take_senders alive sampler thread r c true false =
    (panicked, record r { buffer_thread_sender = false }, c)
take_senders alive sampler thread r c true true =
    let (ending, c') = announce alive sampler thread c in
    (ending, record r { buffer_thread_sender = false; sampler_thread_sender = false }, c')

-- The info is set first, whether or not the registrar was used before.
pub register :
    (alive : Bool)
    → Sampler
    → (thread : ℕ) → (thread_name : String) → ThreadRegistrar
    → Shared
    → Ending × ThreadRegistrar × Shared
unfolding take_senders
register alive sampler thread thread_name r c =
    let info : ThreadInfo = record { id = thread; name = thread_name } in
    let c' : Shared = record c {
      registered_thread_info = set c.registered_thread_info r.thread_info (some info);
    } in
    take_senders alive sampler thread r c' r.buffer_thread_sender r.sampler_thread_sender

-- `unregister_thread`, which `drop` calls, by the thread's local value.
pub unregister_by :
    (alive : Bool) → (thread : ℕ) → Shared → Option PerThreadInstrumentation → Ending × Shared
unfolding set_instrumentation
unregister_by alive thread c none = (panicked, c)
unregister_by false thread c (some _) = (panicked, c)
unregister_by true thread c (some _) = (
  finished,
  set_instrumentation thread none (record c { sent = c.sent ++ unregister_sampler thread ∷ [] }),
)

pub unregister_thread : (alive : Bool) → (thread : ℕ) → Shared → Ending × Shared
unfolding unregister_by
unregister_thread alive thread c = unregister_by alive thread c (c.instrumentation thread)

-- `MainThreadCore::start_sampling`.
pub begin_sampling : (alive : Bool) → Shared → Ending × Shared
begin_sampling false c = (panicked, c)
begin_sampling true c = (finished, record c { sent = c.sent ++ start_sampling ∷ [] })
