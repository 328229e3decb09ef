-- ===== src/OutputJson/Count.antt =====
-- The number that examples/output-json.rs prints.
use profiler_rs.Core.{
  Request, ask_sample_count, ask_serialize, ask_one_sample, Answer, counted, profiled, sampled,
  ready, initial,
}
use profiler_rs.Core.Covers.{AreCovered, initial-Covers}
use profiler_rs.Core.Moves.{sampled_in}
use profiler_rs.Core.Rounds.{initial-Inv}
use profiler_rs.Json.{Json}
use profiler_rs.OutputJson.{requests, Turn, start, run_main}
use profiler_rs.OutputJson.Order.{
  onto, onto-replicate, onto-onto, kinds, IsOnScript, IsSound, run_main-IsSound,
}
use profiler_rs.Prelude.{
  ℕ, zero, suc, ◌≤◌, ◌≡◌, refl, List, [], ◌∷◌, replicate, append-nil, arith, ap, sym, ◌∙◌, subst,
}

module _ (J : Json) where
  sampled_in-kinds :
      (waits : ℕ) (answers : List (ℕ × Answer J))
      → kinds J answers ≡ replicate waits ask_one_sample
      → sampled_in J answers ≡ waits
  sampled_in-kinds zero [] e = refl
  sampled_in-kinds (suc n) [] e = cc
  sampled_in-kinds zero (_ ∷ _) e = cc
  sampled_in-kinds (suc n) ((_, sampled) ∷ rest) e = omega (arith, sampled_in-kinds n rest cc)
  sampled_in-kinds (suc n) ((_, counted _) ∷ rest) e = cc
  sampled_in-kinds (suc n) ((_, profiled _) ∷ rest) e = cc

  -- What `main` has when it is through: a profile, and a count that is not below the waits.
  abbrev pub IsPrinted : (waits : ℕ) → List (ℕ × Answer J) → Type 0
  IsPrinted waits [] = ⊥
  IsPrinted waits (_ ∷ []) = ⊥
  IsPrinted waits ((_, profiled _) ∷ (_, counted size) ∷ _) = waits ≤ size
  IsPrinted waits ((_, profiled _) ∷ (_, profiled _) ∷ _) = ⊥
  IsPrinted waits ((_, profiled _) ∷ (_, sampled) ∷ _) = ⊥
  IsPrinted waits ((_, counted _) ∷ _ ∷ _) = ⊥
  IsPrinted waits ((_, sampled) ∷ _ ∷ _) = ⊥

  kinds-IsPrinted :
      (waits : ℕ) (answers : List (ℕ × Answer J))
      → kinds J answers ≡ ask_serialize ∷ ask_sample_count ∷ replicate waits ask_one_sample
      → AreCovered J answers
      → IsPrinted waits answers
  kinds-IsPrinted waits [] e c = cc
  kinds-IsPrinted waits (_ ∷ []) e c = cc
  kinds-IsPrinted waits ((_, profiled _) ∷ (_, counted size) ∷ rest) e c =
      omega (arith, c.0, sampled_in-kinds waits rest cc)
  kinds-IsPrinted waits ((_, profiled _) ∷ (_, profiled _) ∷ _) e c = cc
  kinds-IsPrinted waits ((_, profiled _) ∷ (_, sampled) ∷ _) e c = cc
  kinds-IsPrinted waits ((_, counted _) ∷ _ ∷ _) e c = cc
  kinds-IsPrinted waits ((_, sampled) ∷ _ ∷ _) e c = cc

  -- The answers of a script that is through.
  through :
      (waits : ℕ) (ks : List Request)
      → onto ks [] ≡ requests waits
      → ks ≡ ask_serialize ∷ ask_sample_count ∷ replicate waits ask_one_sample
  through waits ks e =
      sym (append-nil ks)
      ∙ (sym (onto-onto ks [] [])
          ∙ (ap (λ l. onto l []) e
              ∙ (onto-replicate waits ask_one_sample (ask_sample_count ∷ ask_serialize ∷ []) []
                  ∙ ap (λ l. ask_serialize ∷ ask_sample_count ∷ l)
                      (append-nil (replicate waits ask_one_sample)))))

  start-IsSound : (life : ℕ) (script : List Request) → IsSound J script (start J life script)
  unfolding start initial
  start-IsSound life script = (refl, initial-Inv J life, initial-Covers J life)

  -- Whatever the other threads send and whenever the buffer thread works: when `main` is through with
  -- its waits, the count and the profile, it has got a profile, and before it a count that is at
  -- least the number of its waits, which is 100 in the program.
  pub run_main-IsPrinted :
      (pid life waits : ℕ) (ts : List (Turn J))
      → let p = run_main J pid (start J life (requests waits)) ts in
        p.rest ≡ [] → p.system.core ≡ ready → IsPrinted waits p.system.answers
  run_main-IsPrinted pid life waits ts none_left back =
      let p = run_main J pid (start J life (requests waits)) ts in
      let (f, i, v) =
        run_main-IsSound J (requests waits) pid (start J life (requests waits)) ts
          (start-IsSound life (requests waits)) in
      let done : onto (kinds J p.system.answers) [] ≡ requests waits =
        subst (λ r. onto (kinds J p.system.answers) r ≡ requests waits) none_left
          (subst (λ c. IsOnScript J (requests waits) c p.system.answers p.rest) back f) in
      kinds-IsPrinted waits p.system.answers (through waits (kinds J p.system.answers) done) v.1
