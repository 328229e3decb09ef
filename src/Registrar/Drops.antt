-- ===== src/Registrar/Drops.antt =====
-- When dropping a registrar of src/core.rs panics, from the calls that were made before.
use profiler_rs.Prelude.{
  ℕ, ◌≡◌, refl, List, [], ◌∷◌, Bool, true, false, not, ◌&&◌, ◌||◌, Option, none, some, ◌==◌,
  if◌then◌else◌, Bool-cases, inl, inr, ap, ◌∙◌, sym, arith, ◌++◌, append-nil,
}
use profiler_rs.Registrar.{
  finished, panicked, PerThreadInstrumentation, ThreadRegistrar, Shared, new, set_instrumentation,
  announce, take_senders, register, unregister_by, unregister_thread, begin_sampling,
  get_thread_registrar,
}
use profiler_rs.Registrar.Agreement.{is_some, Call, get, enter, drop, begin, call, calls}
use profiler_rs.SamplerThread.{Sampler, unregister_sampler}

-- Whether a thread is inside the profiler after a call, given whether it was before: it enters by a
-- registrar that still has both senders, and leaves by a drop, while the sampler thread listens.
abbrev pub inside_after : (t : ℕ) → Bool → Call → Bool
inside_after t inside get = inside
inside_after t inside (begin _) = inside
inside_after t inside (enter alive thread _ r) =
    if t == thread
    then (alive && (r.buffer_thread_sender && r.sampler_thread_sender)) || inside
    else inside
inside_after t inside (drop alive thread) = if t == thread then not alive && inside else inside

abbrev pub is_inside : (t : ℕ) → Bool → List Call → Bool
is_inside t inside [] = inside
is_inside t inside (k ∷ ks) = is_inside t (inside_after t inside k) ks

announce-inside :
    (alive : Bool) (sampler : Sampler) (thread t : ℕ) (c : Shared)
    → is_some ((announce alive sampler thread c).1.instrumentation t) ≡ (
        if t == thread
        then alive || is_some (c.instrumentation t)
        else is_some (c.instrumentation t))
unfolding announce set_instrumentation
announce-inside false sampler thread t c = elim (Bool-cases (t == thread)) [
  | inl e ↦ rw e refl
  | inr e ↦ rw e refl
]
announce-inside true sampler thread t c = elim (Bool-cases (t == thread)) [
  | inl e ↦ rw e refl
  | inr e ↦ rw e refl
]

-- A call by a registrar with these senders.
take_senders-inside :
    (alive : Bool) (sampler : Sampler) (thread t : ℕ) (r : ThreadRegistrar) (c : Shared)
    (buffer_sender sampler_sender : Bool)
    → is_some
        ((take_senders alive sampler thread r c buffer_sender sampler_sender).2.instrumentation t)
      ≡ (if t == thread
          then (alive && (buffer_sender && sampler_sender)) || is_some (c.instrumentation t)
          else is_some (c.instrumentation t))
unfolding take_senders
take_senders-inside true sampler thread t r c true true = announce-inside true sampler thread t c
take_senders-inside false sampler thread t r c true true = announce-inside false sampler thread t c
take_senders-inside true sampler thread t r c false b = elim (Bool-cases (t == thread)) [
  | inl e ↦ rw e refl
  | inr e ↦ rw e refl
]
take_senders-inside false sampler thread t r c false b = elim (Bool-cases (t == thread)) [
  | inl e ↦ rw e refl
  | inr e ↦ rw e refl
]
take_senders-inside true sampler thread t r c true false = elim (Bool-cases (t == thread)) [
  | inl e ↦ rw e refl
  | inr e ↦ rw e refl
]
take_senders-inside false sampler thread t r c true false = elim (Bool-cases (t == thread)) [
  | inl e ↦ rw e refl
  | inr e ↦ rw e refl
]

and_false : (b : Bool) → false ≡ (b && false)
and_false true = refl
and_false false = refl

unregister_by-inside :
    (alive : Bool) (thread t : ℕ) (c : Shared) (value : Option PerThreadInstrumentation)
    → c.instrumentation thread ≡ value
    → is_some ((unregister_by alive thread c value).1.instrumentation t) ≡ (
        if t == thread
        then not alive && is_some (c.instrumentation t)
        else is_some (c.instrumentation t))
unfolding unregister_by set_instrumentation
unregister_by-inside alive thread t c none at = elim (Bool-cases (t == thread)) [
  | inl e ↦
      let same : t ≡ thread = ground arith in
      let outside : c.instrumentation t ≡ none = ap c.instrumentation same ∙ at in
      rw (e, outside) (and_false (not alive))
  | inr e ↦ rw e refl
]
unregister_by-inside false thread t c (some i) at = elim (Bool-cases (t == thread)) [
  | inl e ↦ rw e refl
  | inr e ↦ rw e refl
]
unregister_by-inside true thread t c (some i) at = elim (Bool-cases (t == thread)) [
  | inl e ↦ rw e refl
  | inr e ↦ rw e refl
]

-- A drop, by whether the thread has a value.
unregister_by-outcome :
    (alive : Bool) (thread : ℕ) (c : Shared) (value : Option PerThreadInstrumentation)
    → ((unregister_by alive thread c value).0
        ≡ (if alive && is_some value then finished else panicked))
      × ((unregister_by alive thread c value).1.sent
          ≡ c.sent ++ (if alive && is_some value then unregister_sampler thread ∷ [] else []))
unfolding unregister_by set_instrumentation
unregister_by-outcome true thread c none = (refl, sym (append-nil c.sent))
unregister_by-outcome false thread c none = (refl, sym (append-nil c.sent))
unregister_by-outcome false thread c (some i) = (refl, sym (append-nil c.sent))
unregister_by-outcome true thread c (some i) = (refl, refl)

module _ (mac_sampler : ℕ → Sampler) where
  call-inside :
      (c : Shared) (k : Call) (t : ℕ)
      → is_some ((call mac_sampler c k).instrumentation t)
        ≡ inside_after t (is_some (c.instrumentation t)) k
  unfolding call get_thread_registrar register unregister_thread begin_sampling
  call-inside c get t = refl
  call-inside c (begin true) t = refl
  call-inside c (begin false) t = refl
  call-inside c (enter alive thread thread_name r) t =
      take_senders-inside alive (mac_sampler thread) thread t r _ r.buffer_thread_sender
        r.sampler_thread_sender
  call-inside c (drop alive thread) t =
      unregister_by-inside alive thread t c (c.instrumentation thread) refl

  calls-inside :
      (c : Shared) (ks : List Call) (t : ℕ)
      → is_some ((calls mac_sampler c ks).instrumentation t)
        ≡ is_inside t (is_some (c.instrumentation t)) ks
  unfolding calls
  calls-inside c [] t = refl
  calls-inside c (k ∷ ks) t =
      calls-inside (call mac_sampler c k) ks t ∙ ap (λ b. is_inside t b ks) (call-inside c k t)

  -- After any calls by any threads, also ones that panicked: dropping a registrar on a thread ends
  -- without a panic exactly if the sampler thread listens and the thread is inside the profiler: it
  -- has registered, with both senders and while the sampler thread listened, and has not dropped a
  -- registrar since then while it listened. The drop then sends one message, which unregisters the
  -- thread, and otherwise none. And after a drop while the sampler thread listens, another drop on
  -- the same thread panics.
  pub unregister_thread_cases :
      (ks : List Call) (alive again : Bool) (t : ℕ)
      → let c = calls mac_sampler new ks in
        let leaves = alive && is_inside t false ks in
        ((unregister_thread alive t c).0 ≡ (if leaves then finished else panicked))
        × ((unregister_thread alive t c).1.sent
            ≡ c.sent ++ (if leaves then unregister_sampler t ∷ [] else []))
        × ((unregister_thread again t (unregister_thread true t c).1).0 ≡ panicked)
  unfolding unregister_thread new
  unregister_thread_cases ks alive again t =
      let c = calls mac_sampler new ks in
      let inside = calls-inside new ks t in
      let (ending, sent) = unregister_by-outcome alive t c (c.instrumentation t) in
      let c' = (unregister_by true t c (c.instrumentation t)).1 in
      let gone : is_some (c'.instrumentation t) ≡ false =
        unregister_by-inside true t t c (c.instrumentation t) refl ∙ rw same_thread refl in
      (
        ending ∙ ap (λ b. if alive && b then finished else panicked) inside,
        sent ∙ ap (λ b. c.sent ++ (if alive && b then unregister_sampler t ∷ [] else [])) inside,
        (unregister_by-outcome again t c' (c'.instrumentation t)).0
            ∙ ap (λ b. if b then finished else panicked)
                (ap (λ b. again && b) gone ∙ sym (and_false again)),
      )
    where
      same_thread : (t == t) ≡ true
      same_thread = ground arith
