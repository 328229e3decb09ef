-- ===== src/Registrar/Agreement.antt =====
-- The thread-local values that the registrars of src/core.rs set, against the samplers that the loop
-- of src/sampler_thread.rs keeps by the messages that they send.
use profiler_rs.Prelude.{
  ℕ, ◌≡◌, refl, List, [], ◌∷◌, ◌++◌, Bool, true, false, not, ◌||◌, Option, none, some, String, ◌==◌,
  if◌then◌else◌, keep, Bool-cases, inl, inr, ap, ◌∙◌, arith,
}
use profiler_rs.Registrar.{
  PerThreadInstrumentation, ThreadRegistrar, Shared, new, set_instrumentation, announce,
  take_senders, register, unregister_by, unregister_thread, begin_sampling, get_thread_registrar,
}
use profiler_rs.SamplerThread
use profiler_rs.SamplerThread.{
  Poll, SamplerThread, Sampler, SamplerThreadMessage, register_sampler, unregister_sampler,
  pause_sampling, start_sampling, stop_sampling, remove,
}
use profiler_rs.SamplerThread.Control.{
  messages, run-registered, unregisters, any_unregisters, registered,
}

any_unregisters-snoc :
    (tid : ℕ) (ms : List SamplerThreadMessage) (m : SamplerThreadMessage)
    → any_unregisters tid (ms ++ m ∷ []) ≡ (any_unregisters tid ms || unregisters tid m)
any_unregisters-snoc tid [] m = elim (Bool-cases (unregisters tid m)) [
  | inl e ↦ rw e refl
  | inr e ↦ rw e refl
]
any_unregisters-snoc tid (m' ∷ ms) m = elim (Bool-cases (unregisters tid m')) [
  | inl e ↦ rw e refl
  | inr e ↦ rw e (any_unregisters-snoc tid ms m)
]

or_false : (b : Bool) → (b || false) ≡ b
or_false true = refl
or_false false = refl

registered-register :
    (ms : List SamplerThreadMessage) (s : Sampler)
    → registered (ms ++ register_sampler s ∷ []) ≡ registered ms ++ s ∷ []
registered-register [] s = refl
registered-register (register_sampler s' ∷ ms) s =
    let same : any_unregisters s'.thread_id (ms ++ register_sampler s ∷ [])
        ≡ any_unregisters s'.thread_id ms =
      any_unregisters-snoc s'.thread_id ms (register_sampler s) ∙ or_false _ in
    elim (Bool-cases (any_unregisters s'.thread_id ms)) [
      | inl e ↦ rw (same, e) (registered-register ms s)
      | inr e ↦ rw (same, e) (ap (◌∷◌ s') (registered-register ms s))
    ]
registered-register (unregister_sampler _ ∷ ms) s = registered-register ms s
registered-register (pause_sampling ∷ ms) s = registered-register ms s
registered-register (start_sampling ∷ ms) s = registered-register ms s
registered-register (stop_sampling ∷ ms) s = registered-register ms s

registered-unregister :
    (ms : List SamplerThreadMessage) (tid : ℕ)
    → registered (ms ++ unregister_sampler tid ∷ [])
      ≡ keep (λ s. not (s.thread_id == tid)) (registered ms)
registered-unregister [] tid = refl
registered-unregister (register_sampler s' ∷ ms) tid =
    let split = any_unregisters-snoc s'.thread_id ms (unregister_sampler tid) in
    elim (Bool-cases (any_unregisters s'.thread_id ms)) [
      | inl e ↦ rw (split, e) (registered-unregister ms tid)
      | inr e ↦ elim (Bool-cases (s'.thread_id == tid)) [
        | inl e' ↦ rw (split, e, e') (registered-unregister ms tid)
        | inr e' ↦ rw (split, e, e') (ap (◌∷◌ s') (registered-unregister ms tid))
      ]
    ]
registered-unregister (unregister_sampler _ ∷ ms) tid = registered-unregister ms tid
registered-unregister (pause_sampling ∷ ms) tid = registered-unregister ms tid
registered-unregister (start_sampling ∷ ms) tid = registered-unregister ms tid
registered-unregister (stop_sampling ∷ ms) tid = registered-unregister ms tid

registered-start :
    (ms : List SamplerThreadMessage) → registered (ms ++ start_sampling ∷ []) ≡ registered ms
registered-start [] = refl
registered-start (register_sampler s' ∷ ms) =
    let same : any_unregisters s'.thread_id (ms ++ start_sampling ∷ [])
        ≡ any_unregisters s'.thread_id ms =
      any_unregisters-snoc s'.thread_id ms start_sampling ∙ or_false _ in
    elim (Bool-cases (any_unregisters s'.thread_id ms)) [
      | inl e ↦ rw (same, e) (registered-start ms)
      | inr e ↦ rw (same, e) (ap (◌∷◌ s') (registered-start ms))
    ]
registered-start (unregister_sampler _ ∷ ms) = registered-start ms
registered-start (pause_sampling ∷ ms) = registered-start ms
registered-start (start_sampling ∷ ms) = registered-start ms
registered-start (stop_sampling ∷ ms) = registered-start ms

-- Whether some sampler of the list is for the thread.
abbrev pub has_sampler : ℕ → List Sampler → Bool
has_sampler tid [] = false
has_sampler tid (s ∷ ss) = (tid == s.thread_id) || has_sampler tid ss

abbrev pub is_some {ℓ} : {A : Type ℓ} → Option A → Bool
is_some none = false
is_some (some _) = true

has_sampler-snoc :
    (tid : ℕ) (ss : List Sampler) (s : Sampler)
    → has_sampler tid (ss ++ s ∷ []) ≡ (if tid == s.thread_id then true else has_sampler tid ss)
has_sampler-snoc tid [] s = ground arith
has_sampler-snoc tid (s' ∷ ss) s = ground (arith, has_sampler-snoc tid ss s)

has_sampler-keep :
    (tid other : ℕ) (ss : List Sampler)
    → has_sampler tid (keep (λ s. not (s.thread_id == other)) ss)
      ≡ (if tid == other then false else has_sampler tid ss)
has_sampler-keep tid other [] = ground arith
has_sampler-keep tid other (s ∷ ss) = ground (arith, has_sampler-keep tid other ss)

-- A thread has a sampler exactly if its thread-local value is set.
abbrev pub Agrees : Shared → Type 0
Agrees c = (t : ℕ) → has_sampler t (registered c.sent) ≡ is_some (c.instrumentation t)

announce-Agrees :
    (alive : Bool) (sampler : Sampler) (thread : ℕ) (c : Shared)
    → sampler.thread_id ≡ thread
    → Agrees c
    → Agrees (announce alive sampler thread c).1
unfolding announce set_instrumentation
announce-Agrees false sampler thread c is a t = a t
announce-Agrees true sampler thread c is a t =
    ap (has_sampler t) (registered-register c.sent sampler)
    ∙ (has_sampler-snoc t (registered c.sent) sampler
        ∙ elim (Bool-cases (t == thread)) [ inl e ↦ rw (is, e) refl | inr e ↦ rw (is, e) (a t) ])

take_senders-Agrees :
    (alive : Bool) (sampler : Sampler) (thread : ℕ) (r : ThreadRegistrar) (c : Shared)
    (buffer_sender sampler_sender : Bool)
    → sampler.thread_id ≡ thread
    → Agrees c
    → Agrees (take_senders alive sampler thread r c buffer_sender sampler_sender).2
unfolding take_senders
take_senders-Agrees alive sampler thread r c false _ is a = a
take_senders-Agrees alive sampler thread r c true false is a = a
take_senders-Agrees alive sampler thread r c true true is a =
    announce-Agrees alive sampler thread c is a

unregister_by-Agrees :
    (alive : Bool) (thread : ℕ) (c : Shared) (value : Option PerThreadInstrumentation)
    → Agrees c
    → Agrees (unregister_by alive thread c value).1
unfolding unregister_by set_instrumentation
unregister_by-Agrees alive thread c none a t = a t
unregister_by-Agrees false thread c (some _) a t = a t
unregister_by-Agrees true thread c (some _) a t =
    ap (has_sampler t) (registered-unregister c.sent thread)
    ∙ (has_sampler-keep t thread (registered c.sent)
        ∙ elim (Bool-cases (t == thread)) [ inl e ↦ rw e refl | inr e ↦ rw e (a t) ])

-- The calls that threads make, each with the thread that makes it and whether the sampler thread
-- listens then. Any registrar may be used, also one that was used before.
pub data Call : Type 0 where
  get : Call
  enter : (alive : Bool) → (thread : ℕ) → (thread_name : String) → ThreadRegistrar → Call
  drop : (alive : Bool) → (thread : ℕ) → Call
  begin : (alive : Bool) → Call

module _ (mac_sampler : ℕ → Sampler) where
  -- The state after a call, also if the call panicked.
  unfoldable pub call : Shared → Call → Shared
  call c get = (get_thread_registrar c).1
  call c (enter alive thread thread_name r) =
      (register alive (mac_sampler thread) thread thread_name r c).2
  call c (drop alive thread) = (unregister_thread alive thread c).1
  call c (begin alive) = (begin_sampling alive c).1

  unfoldable pub calls : Shared → List Call → Shared
  calls c [] = c
  calls c (k ∷ ks) = calls (call c k) ks

  module _ (thread_id : (t : ℕ) → (mac_sampler t).thread_id ≡ t) where
    call-Agrees : (c : Shared) (k : Call) → Agrees c → Agrees (call c k)
    unfolding call get_thread_registrar register unregister_thread begin_sampling
    call-Agrees c get a = a
    call-Agrees c (enter alive thread thread_name r) a =
        take_senders-Agrees alive (mac_sampler thread) thread r _ r.buffer_thread_sender
          r.sampler_thread_sender (thread_id thread) a
    call-Agrees c (drop alive thread) a =
        unregister_by-Agrees alive thread c (c.instrumentation thread) a
    call-Agrees c (begin false) a = a
    call-Agrees c (begin true) a = λ t. ap (has_sampler t) (registered-start c.sent) ∙ a t

    calls-Agrees : (c : Shared) (ks : List Call) → Agrees c → Agrees (calls c ks)
    unfolding calls
    calls-Agrees c [] a = a
    calls-Agrees c (k ∷ ks) a = calls-Agrees (call c k) ks (call-Agrees c k a)

    -- When the sampler made for a thread reports that thread's id: after any calls by any threads,
    -- also ones that panicked, a sampler thread that has handled the messages that they sent and still
    -- runs, whatever it sampled in between, keeps a sampler for exactly the threads whose thread-local
    -- value is set.
    pub calls_agree :
        (ks : List Call) (ps : List (Poll × ℕ)) (u : SamplerThread) (t : ℕ)
        → messages ps ≡ (calls new ks).sent
        → (SamplerThread.run 0 SamplerThread.new ps).0 ≡ SamplerThread.running u
        → has_sampler t u.samplers ≡ is_some ((calls new ks).instrumentation t)
    unfolding new
    calls_agree ks ps u t handled still =
        ap (has_sampler t) ((run-registered ps u still).1 ∙ ap registered handled)
        ∙ calls-Agrees new ks (λ t. refl) t
