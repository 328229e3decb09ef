-- ===== src/SamplerThread/Rounds.antt =====
-- A run of src/sampler_thread.rs, one round longer.
use profiler_rs.Prelude.{
  ℕ, suc, ◌+◌, ◌≡◌, refl, List, [], ◌∷◌, ◌++◌, arith, length, ap, ◌∙◌, ◌⊎◌, inl, inr,
}
use profiler_rs.SamplesSerializer.{Sample}
use profiler_rs.SamplerThread.{
  Poll, SamplerThread, Round, continues, returns, panics, iterate, running, returned, panicked, run,
}

pub Round-cases :
    (r : Round)
    → ((t : SamplerThread) × (sent : List (ℕ × Sample)) × (r ≡ continues t sent))
      ⊎ (r ≡ returns)
      ⊎ ((sent : List (ℕ × Sample)) × (r ≡ panics sent))
Round-cases (continues t sent) = inl (t, sent, refl)
Round-cases returns = inr (inl refl)
Round-cases (panics sent) = inr (inr (sent, refl))

-- How a run goes on, given how its first round ends.
pub run_first :
    (round : ℕ) (t u : SamplerThread) (p : Poll × ℕ) (ps : List (Poll × ℕ)) (r : Round)
    → iterate round t p ≡ r
    → (run round t (p ∷ ps)).0 ≡ running u
    → (t' : SamplerThread) × (sent : List (ℕ × Sample)) × (iterate round t p ≡ continues t' sent)
      × ((run (round + 1) t' ps).0 ≡ running u)
unfolding run
run_first round t u p ps (continues t' sent) e h = (t', sent, e, rw (e, run) at h)
run_first round t u p ps returns e h = let h' : returned ≡ running u = rw (e, run) at h in cc
run_first round t u p ps (panics _) e h = let h' : panicked ≡ running u = rw (e, run) at h in cc

-- A round more.
pub run-snoc :
    (round : ℕ) (t u u' : SamplerThread) (ps : List (Poll × ℕ)) (p : Poll × ℕ)
    (sent : List (ℕ × Sample))
    → (run round t ps).0 ≡ running u
    → iterate (round + length ps) u p ≡ continues u' sent
    → (run round t (ps ++ p ∷ [])).0 ≡ running u'
unfolding run
run-snoc round t u u' [] p sent h e =
    let same : t ≡ u = cc in
    let here : round ≡ round + 0 = omega arith in
    let e' : iterate round t p ≡ continues u' sent =
      ap (λ x. iterate round x p) same ∙ (ap (λ n. iterate n u p) here ∙ e) in
    rw (e', run) refl
run-snoc round t u u' (q ∷ ps) p sent h e =
    let (t', _, first, later) = run_first round t u q ps (iterate round t q) refl h in
    let there : round + 1 + length ps ≡ round + suc (length ps) = omega arith in
    let rest = run-snoc (round + 1) t' u u' ps p sent later (ap (λ n. iterate n u p) there ∙ e) in
    rw (first, run) rest
