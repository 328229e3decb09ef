-- ===== src/SamplerThread/Control.antt =====
-- The loop of src/sampler_thread.rs against what its messages say: of which threads it keeps samplers,
-- and when it is paused.
use profiler_rs.Prelude.{
  ℕ, zero, suc, ◌+◌, ◌≡◌, refl, ◌⊎◌, inl, inr, List, [], ◌∷◌, ◌++◌, Bool, true, false, not, ◌==◌,
  keep, keep-append, if◌then◌else◌, Bool-cases, ap, sym, ◌∙◌, append-nil, append_assoc,
}
use profiler_rs.SamplesSerializer.{Sample}
use profiler_rs.SamplerThread.{
  Sampler, SamplerThreadMessage, register_sampler, unregister_sampler, pause_sampling,
  start_sampling, stop_sampling, Poll, received, empty, disconnected, SamplerThread, new, continues,
  panics, sent_before, remove, handle, take_samples, send_samples, on_empty, iterate, running,
  panicked, run,
}

-- The messages among the polls.
abbrev pub messages : List (Poll × ℕ) → List SamplerThreadMessage
messages [] = []
messages ((received m, _) ∷ ps) = m ∷ messages ps
messages ((empty, _) ∷ ps) = messages ps
messages ((disconnected, _) ∷ ps) = messages ps

-- Whether the last start or pause was a pause, given how it stood before.
abbrev pub paused_after : Bool → List SamplerThreadMessage → Bool
paused_after p [] = p
paused_after p (pause_sampling ∷ ms) = paused_after true ms
paused_after p (start_sampling ∷ ms) = paused_after false ms
paused_after p (register_sampler _ ∷ ms) = paused_after p ms
paused_after p (unregister_sampler _ ∷ ms) = paused_after p ms
paused_after p (stop_sampling ∷ ms) = paused_after p ms

-- Whether a message unregisters the thread.
abbrev pub unregisters : ℕ → SamplerThreadMessage → Bool
unregisters tid (unregister_sampler t) = tid == t
unregisters tid (register_sampler _) = false
unregisters tid pause_sampling = false
unregisters tid start_sampling = false
unregisters tid stop_sampling = false

abbrev pub any_unregisters : ℕ → List SamplerThreadMessage → Bool
any_unregisters tid [] = false
any_unregisters tid (m ∷ ms) = if unregisters tid m then true else any_unregisters tid ms

-- The samplers that some message registers and no later one unregisters, in order.
abbrev pub registered : List SamplerThreadMessage → List Sampler
registered [] = []
registered (register_sampler s ∷ ms) =
    if any_unregisters s.thread_id ms then registered ms else s ∷ registered ms
registered (unregister_sampler _ ∷ ms) = registered ms
registered (pause_sampling ∷ ms) = registered ms
registered (start_sampling ∷ ms) = registered ms
registered (stop_sampling ∷ ms) = registered ms

-- Those of a list of samplers that the messages leave.
abbrev left_by : List SamplerThreadMessage → List Sampler → List Sampler
left_by ms = keep (λ s. not (any_unregisters s.thread_id ms))

left_by-nil : (ss : List Sampler) → left_by [] ss ≡ ss
left_by-nil [] = refl
left_by-nil (s ∷ ss) = ap (◌∷◌ s) (left_by-nil ss)

left_by-register :
    (s : Sampler) (ms : List SamplerThreadMessage) (ss : List Sampler)
    → left_by ms (ss ++ s ∷ []) ++ registered ms
      ≡ left_by ms ss ++ registered (register_sampler s ∷ ms)
left_by-register s ms ss =
    ap (λ l. l ++ registered ms) (keep-append _ ss (s ∷ []))
    ∙ (append_assoc (left_by ms ss) (left_by ms (s ∷ [])) (registered ms)
        ∙ ap (◌++◌ (left_by ms ss)) front)
  where
    front : left_by ms (s ∷ []) ++ registered ms ≡ registered (register_sampler s ∷ ms)
    front = elim (Bool-cases (any_unregisters s.thread_id ms)) [
      | inl gone ↦ rw gone
      | inr stays ↦ rw stays
    ]

left_by-unregister :
    (tid : ℕ) (ms : List SamplerThreadMessage) (ss : List Sampler)
    → left_by ms (remove tid ss) ≡ left_by (unregister_sampler tid ∷ ms) ss
unfolding remove
left_by-unregister tid ms [] = refl
left_by-unregister tid ms (s ∷ ss) = elim (Bool-cases (s.thread_id == tid)) [
  | inl same ↦ rw same (left_by-unregister tid ms ss)
  | inr other ↦ elim (Bool-cases (any_unregisters s.thread_id ms)) [
    | inl gone ↦ rw (other, gone) (left_by-unregister tid ms ss)
    | inr stays ↦ rw (other, stays) (ap (◌∷◌ s) (left_by-unregister tid ms ss))
  ]
]

send_samples_cases :
    (accepted : ℕ) (t : SamplerThread) (samples : List (ℕ × Sample))
    → (send_samples accepted t samples ≡ continues t samples)
      ⊎ ((sent missing : List (ℕ × Sample)) × (send_samples accepted t samples ≡ panics sent)
          × (samples ≡ sent ++ missing))
unfolding send_samples sent_before
send_samples_cases accepted t [] = inl refl
send_samples_cases zero t (sample ∷ rest) = inr ([], sample ∷ rest, refl, refl)
send_samples_cases (suc accepted) t (sample ∷ rest) = elim (send_samples_cases accepted t rest) [
  | inl e ↦ inl (ap (sent_before sample) e)
  | inr (sent, missing, e, split) ↦
      inr (sample ∷ sent, missing, ap (sent_before sample) e, ap (◌∷◌ sample) split)
]

-- A round with no message leaves the state as it was: it sends nothing when paused, and otherwise
-- the samples that could be taken, or panics behind the first of them.
pub on_empty_cases :
    (round accepted : ℕ) (t : SamplerThread) (p : Bool)
    → let taken = if p then [] else take_samples round t.samplers in
      (on_empty round accepted t p ≡ continues t taken)
      ⊎ ((sent missing : List (ℕ × Sample)) × (on_empty round accepted t p ≡ panics sent)
          × (taken ≡ sent ++ missing))
unfolding on_empty
on_empty_cases round accepted t true = inl refl
on_empty_cases round accepted t false =
    send_samples_cases accepted t (take_samples round t.samplers)

-- The state and the sends that the messages ask for.
abbrev pub Follows : Bool → List Sampler → List SamplerThreadMessage → SamplerThread → Type 0
Follows p ss ms u =
    (u.is_paused ≡ paused_after p ms) × (u.samplers ≡ left_by ms ss ++ registered ms)

run-Follows :
    (round : ℕ) (t u : SamplerThread) (ps : List (Poll × ℕ))
    → (run round t ps).0 ≡ running u
    → Follows t.is_paused t.samplers (messages ps) u
unfolding run iterate handle
run-Follows round t u [] e =
    let same : t ≡ u = cc in
    (
      ap (λ x. x.is_paused) (sym same),
      ap (λ x. x.samplers) (sym same)
          ∙ sym (append-nil (left_by [] t.samplers) ∙ left_by-nil t.samplers),
    )
run-Follows round t u ((received (register_sampler s), _) ∷ ps) e =
    let (p, ss) = run-Follows (round + 1) _ u ps e in
    (p, ss ∙ left_by-register s (messages ps) t.samplers)
run-Follows round t u ((received (unregister_sampler tid), _) ∷ ps) e =
    let (p, ss) = run-Follows (round + 1) _ u ps e in
    (
      p,
      ss
          ∙ ap (λ l. l ++ registered (messages ps))
              (left_by-unregister tid (messages ps) t.samplers),
    )
run-Follows round t u ((received pause_sampling, _) ∷ ps) e = run-Follows (round + 1) _ u ps e
run-Follows round t u ((received start_sampling, _) ∷ ps) e = run-Follows (round + 1) _ u ps e
run-Follows round t u ((received stop_sampling, _) ∷ ps) e = cc
run-Follows round t u ((disconnected, _) ∷ ps) e = cc
run-Follows round t u ((empty, n) ∷ ps) e = elim (on_empty_cases round n t t.is_paused) [
  | inl on ↦ run-Follows (round + 1) t u ps (rw (on, run) at e)
  | inr (_, _, dead, _) ↦ let e' : panicked ≡ running u = rw (dead, run) at e in cc
]

-- While the thread runs, it is paused exactly if no start has come since the last pause (it begins
-- paused), and its samplers are, in order, those that were registered and that no later message
-- unregistered, whatever was sampled in between.
pub run-registered :
    (ps : List (Poll × ℕ)) (u : SamplerThread)
    → (run 0 new ps).0 ≡ running u
    → (u.is_paused ≡ paused_after true (messages ps)) × (u.samplers ≡ registered (messages ps))
unfolding new
run-registered ps u e = run-Follows 0 new u ps e

pub handle-no_panic :
    (t : SamplerThread) (m : SamplerThreadMessage) (sent : List (ℕ × Sample))
    → ¬ (handle t m ≡ panics sent)
unfolding handle
handle-no_panic t (register_sampler s) sent e = cc
handle-no_panic t (unregister_sampler tid) sent e = cc
handle-no_panic t pause_sampling sent e = cc
handle-no_panic t start_sampling sent e = cc
handle-no_panic t stop_sampling sent e = cc

pub handle_sends :
    (t u : SamplerThread) (m : SamplerThreadMessage) (sent : List (ℕ × Sample))
    → handle t m ≡ continues u sent
    → sent ≡ []
unfolding handle
handle_sends t u (register_sampler s) sent e = cc
handle_sends t u (unregister_sampler tid) sent e = cc
handle_sends t u pause_sampling sent e = cc
handle_sends t u start_sampling sent e = cc
handle_sends t u stop_sampling sent e = cc
