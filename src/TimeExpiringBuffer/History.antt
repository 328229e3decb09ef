-- ===== src/TimeExpiringBuffer/History.antt =====
-- A buffer of src/time_expiring_buffer.rs over a history of calls.
use profiler_rs.Prelude.{
  ℕ, ◌-◌, ◌≤◌, ◌≡◌, refl, List, [], ◌∷◌, ◌++◌, false, arith, keep-append, ltb, sym, Bool-cases, inl,
  inr, ap, ◌∙◌, append-nil, append_assoc,
}
use profiler_rs.TimeExpiringBuffer.{
  BufferEntry, TimeExpiringBuffer, new, push_back_at, push_back, remove_expired,
}
use profiler_rs.TimeExpiringBuffer.Expiry.{
  IsTimely, fresh, remove_expired-fresh, remove_expired-splits, push_back-IsTimely,
  remove_expired-IsTimely, new-IsTimely,
}

-- The calls that change a buffer.
pub data Call {ℓ} (A : Type ℓ) : Type ℓ where
  push : ℕ → A → Call A
  expire : Call A

module _ {ℓ} {A : Type ℓ} where
  -- One call, at the time that the clock shows.
  unfoldable pub step : TimeExpiringBuffer A → ℕ × Call A → TimeExpiringBuffer A
  step b (now, push tid value) = push_back now b tid value
  step b (now, expire) = remove_expired now b

  unfoldable pub run : TimeExpiringBuffer A → List (ℕ × Call A) → TimeExpiringBuffer A
  run b [] = b
  run b (c ∷ cs) = run (step b c) cs

  -- The clock does not go back.
  abbrev pub IsMonotonic : ℕ → List (ℕ × Call A) → Type 0
  IsMonotonic clock [] = Unit
  IsMonotonic clock (c ∷ cs) = (clock ≤ c.0) × IsMonotonic c.0 cs

  -- Every entry that the calls push, in order.
  abbrev pub pushed : List (ℕ × Call A) → List (BufferEntry A)
  pushed [] = []
  pushed ((now, push tid value) ∷ cs) =
      record { tid = tid; created_at = now; value = value } ∷ pushed cs
  pushed ((now, expire) ∷ cs) = pushed cs

  -- When `remove_expired` was last called, or the time given if it was not.
  abbrev pub last_expiry : ℕ → List (ℕ × Call A) → ℕ
  last_expiry t [] = t
  last_expiry t ((now, push tid value) ∷ cs) = last_expiry t cs
  last_expiry t ((now, expire) ∷ cs) = last_expiry now cs

  fresh-fresh :
      (t now life : ℕ) (es : List (BufferEntry A))
      → t ≤ now
      → fresh now life (fresh t life es) ≡ fresh now life es
  fresh-fresh t now life [] h = refl
  fresh-fresh t now life (e ∷ es) h = elim (Bool-cases (ltb life (now - e.created_at))) [
    | inl old ↦ elim (Bool-cases (ltb life (t - e.created_at))) [
      | inl old' ↦ rw (old, old') (fresh-fresh t now life es h)
      | inr young' ↦ rw (old, young') (rw old (fresh-fresh t now life es h))
    ]
    | inr young ↦
        let young' : ltb life (t - e.created_at) ≡ false = ground arith in
        rw (young, young') (rw young (ap (◌∷◌ e) (fresh-fresh t now life es h)))
  ]

  lifetime :
      (now : ℕ) (b : TimeExpiringBuffer A) (tid : ℕ) (value : A)
      → (push_back now b tid value).entry_lifetime ≡ b.entry_lifetime
  unfolding push_back push_back_at
  lifetime now b tid value = refl

  pub new_fields :
      (life : ℕ) → ((new {A = A} life).entry_lifetime ≡ life) × ((new {A = A} life).buffer ≡ [])
  unfolding new
  new_fields life = (refl, refl)

  entry : ℕ → ℕ → A → BufferEntry A
  entry now tid value = record { tid = tid; created_at = now; value = value }

  fresh-push :
      (t now tid life : ℕ) (value : A) (b : TimeExpiringBuffer A) (log : List (BufferEntry A))
      → t ≤ now
      → b.buffer ≡ fresh t life log
      → (push_back now b tid value).buffer ≡ fresh t life (log ++ entry now tid value ∷ [])
  unfolding push_back push_back_at entry
  fresh-push t now tid life value b log h e =
      let young : ltb life (t - now) ≡ false = ground arith in rw (keep-append _ log _, e, young)

  -- `log` is what was pushed so far and `t` the last expiry.
  run-fresh :
      (clock t life : ℕ) (cs : List (ℕ × Call A)) (b : TimeExpiringBuffer A)
      (log : List (BufferEntry A))
      → IsMonotonic clock cs
      → t ≤ clock
      → IsTimely clock b
      → b.entry_lifetime ≡ life
      → b.buffer ≡ fresh t life log
      → (run b cs).buffer ≡ fresh (last_expiry t cs) life (log ++ pushed cs)
  unfolding run step entry
  run-fresh clock t life [] b log m h w l e = rw append-nil e
  run-fresh clock t life ((now, push tid value) ∷ cs) b log m h w l e =
      run-fresh now t life cs (push_back now b tid value) (log ++ entry now tid value ∷ []) m.1
        (omega arith) (push_back-IsTimely clock now tid value b m.0 w)
        (lifetime now b tid value ∙ l) (fresh-push t now tid life value b log (omega arith) e)
      ∙ ap (fresh (last_expiry t cs) life) (append_assoc log _ _)
  run-fresh clock t life ((now, expire) ∷ cs) b log m h w l e =
      run-fresh now now life cs (remove_expired now b) log m.1 (omega arith)
        (remove_expired-IsTimely clock now b m.0 w) ((remove_expired-splits now b).1 ∙ l)
        (remove_expired-fresh now b w.ordered
          ∙ (ap (fresh now b.entry_lifetime) e
              ∙ (ap (λ k. fresh now k (fresh t life log)) l
                  ∙ fresh-fresh t now life log (omega arith))))

  -- After any calls on a new buffer, made while the clock does not go back, the buffer holds exactly
  -- those pushed entries, in order, that were not expired when `remove_expired` was last called
  -- (all of them if it never was), so an entry leaves the buffer by a call of `remove_expired` alone.
  pub run-new :
      (clock life : ℕ) (cs : List (ℕ × Call A))
      → IsMonotonic clock cs
      → (run (new life) cs).buffer ≡ fresh (last_expiry 0 cs) life (pushed cs)
  run-new clock life cs m =
      run-fresh clock 0 life cs (new life) [] m (omega arith) (new-IsTimely clock life)
        (new_fields life).0 (new_fields life).1

  -- No call is `remove_expired`.
  abbrev pub HasNoExpiry : List (ℕ × Call A) → Type 0
  HasNoExpiry [] = Unit
  HasNoExpiry ((_, push _ _) ∷ cs) = HasNoExpiry cs
  HasNoExpiry ((_, expire) ∷ cs) = ⊥

  pub run-pushed :
      (b : TimeExpiringBuffer A) (cs : List (ℕ × Call A))
      → HasNoExpiry cs
      → (run b cs).buffer ≡ b.buffer ++ pushed cs
  unfolding run step push_back push_back_at
  run-pushed b [] h = sym (append-nil b.buffer)
  run-pushed b ((now, push tid value) ∷ cs) h =
      run-pushed (push_back now b tid value) cs h ∙ append_assoc b.buffer _ (pushed cs)
  run-pushed b ((now, expire) ∷ cs) h = absurd h

  pub IsMonotonic-mono :
      (early late : ℕ) (cs : List (ℕ × Call A))
      → early ≤ late
      → IsMonotonic late cs
      → IsMonotonic early cs
  IsMonotonic-mono early late [] h m = tt
  IsMonotonic-mono early late (c ∷ cs) h m = (omega arith, m.1)
