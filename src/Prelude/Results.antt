-- ===== src/Prelude/Results.antt =====
-- Rust's `Result`, with the chain of fallible steps.
use mathlib.Core.Path.{◌≡◌, refl}
use mathlib.Core.Logic.{◌⊎◌, inl, inr}

pub data Result {ℓ κ} (A : Type ℓ) (E : Type κ) : Type (ℓ ⊔ κ) where
  ok : A → Result A E
  err : E → Result A E

module _ {ι ℓ κ} {E : Type ι} {A : Type ℓ} {B : Type κ} where
  -- The first error ends the chain.
  infixl 5 ◌>>=◌
  abbrev pub ◌>>=◌ : Result A E → (A → Result B E) → Result B E
  err fault >>= next = err fault
  ok value >>= next = next value

  -- Inversion of a successful chain.
  pub >>=-eq-ok :
      (m : Result A E) (next : A → Result B E) {b : B}
      → (m >>= next) ≡ ok b
      → (a : A) × (m ≡ ok a) × (next a ≡ ok b)
  >>=-eq-ok (err fault) next h = cc
  >>=-eq-ok (ok value) next h = (value, refl, h)

pub Result-cases {ℓ κ} :
    {A : Type ℓ} {E : Type κ} (m : Result A E) → ((e : E) × (m ≡ err e)) ⊎ ((a : A) × (m ≡ ok a))
Result-cases (err e) = inl (e, refl)
Result-cases (ok a) = inr (a, refl)
