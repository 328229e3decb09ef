-- ===== src/TimeExpiringBuffer/Expiry.antt =====
-- What `remove_expired` of src/time_expiring_buffer.rs drops and what it leaves, and the order of
-- creation times on which that rests.
use profiler_rs.Prelude.{
  ℕ, ◌-◌, ◌≤◌, ◌<◌, ◌≡◌, refl, List, [], ◌∷◌, ◌++◌, true, false, not, arith, keep, All, All-append,
  All-mono, ltb, Bool-cases, inl, inr, ap, sym,
}
use profiler_rs.TimeExpiringBuffer.{
  BufferEntry, TimeExpiringBuffer, duration_since, new, push_back_at, push_back, is_expired,
  pop_expired, remove_expired,
}

module _ {ℓ} {A : Type ℓ} where
  -- Older than the lifetime.
  abbrev pub IsExpired : (now entry_lifetime : ℕ) → BufferEntry A → Type 0
  IsExpired now entry_lifetime e = entry_lifetime < duration_since now e.created_at

  abbrev pub FrontIsFresh : (now entry_lifetime : ℕ) → List (BufferEntry A) → Type 0
  FrontIsFresh now entry_lifetime [] = Unit
  FrontIsFresh now entry_lifetime (e ∷ _) = ¬ IsExpired now entry_lifetime e

  -- Creation times do not go down along the list.
  abbrev pub IsOrdered : List (BufferEntry A) → Type 0
  IsOrdered [] = Unit
  IsOrdered (e ∷ es) = All (λ x. e.created_at ≤ x.created_at) es × IsOrdered es

  -- A buffer whose entries were all made up to `clock`, in order.
  pub record IsTimely (clock : ℕ) (b : TimeExpiringBuffer A) : Type 0 where
    pub ordered : IsOrdered b.buffer
    pub past : All (λ x. x.created_at ≤ clock) b.buffer

  is_expired-IsExpired :
      (now life : ℕ) (e : BufferEntry A) → is_expired now life e ≡ true → IsExpired now life e
  unfolding is_expired
  is_expired-IsExpired now life e h = ground arith

  is_expired-fresh :
      (now life : ℕ) (e : BufferEntry A) → is_expired now life e ≡ false → ¬ IsExpired now life e
  unfolding is_expired
  is_expired-fresh now life e h = ground arith

  pop_expired-splits :
      (now life : ℕ) (es : List (BufferEntry A))
      → (dropped : List (BufferEntry A)) × (es ≡ dropped ++ pop_expired now life es)
        × All (IsExpired now life) dropped
        × FrontIsFresh now life (pop_expired now life es)
  unfolding pop_expired
  pop_expired-splits now life [] = ([], refl, tt, tt)
  pop_expired-splits now life (e ∷ es) = elim (Bool-cases (is_expired now life e)) [
    | inl old ↦
        let (dropped, eq, gone, front) = pop_expired-splits now life es in
        rw old (e ∷ dropped, ap (◌∷◌ e) eq, (is_expired-IsExpired now life e old, gone), front)
    | inr fresh ↦ rw fresh ([], refl, tt, is_expired-fresh now life e fresh)
  ]

  -- `remove_expired` takes a run of entries off the front, each older than the lifetime, and stops
  -- at the end of the buffer or at an entry that is not; the lifetime stays as it was.
  pub remove_expired-splits :
      (now : ℕ) (b : TimeExpiringBuffer A)
      → ((dropped : List (BufferEntry A)) × (b.buffer ≡ dropped ++ (remove_expired now b).buffer)
          × All (IsExpired now b.entry_lifetime) dropped
          × FrontIsFresh now b.entry_lifetime (remove_expired now b).buffer)
        × ((remove_expired now b).entry_lifetime ≡ b.entry_lifetime)
  unfolding remove_expired
  remove_expired-splits now b = (pop_expired-splits now b.entry_lifetime b.buffer, refl)

  -- The entries that are not expired.
  abbrev pub fresh : (now entry_lifetime : ℕ) → List (BufferEntry A) → List (BufferEntry A)
  fresh now life = keep (λ e. not (ltb life (now - e.created_at)))

  fresh-All :
      (now life t : ℕ) (es : List (BufferEntry A))
      → ¬ (life < now - t)
      → All (λ x. t ≤ x.created_at) es
      → fresh now life es ≡ es
  fresh-All now life t [] h a = refl
  fresh-All now life t (e ∷ es) h a = ground (arith, fresh-All now life t es h a.1)

  pop_expired-fresh :
      (now life : ℕ) (es : List (BufferEntry A))
      → IsOrdered es
      → pop_expired now life es ≡ fresh now life es
  unfolding pop_expired is_expired
  pop_expired-fresh now life [] o = refl
  pop_expired-fresh now life (e ∷ es) o = elim (Bool-cases (ltb life (now - e.created_at))) [
    | inl old ↦ rw old (pop_expired-fresh now life es o.1)
    | inr young ↦
        let h : ¬ (life < now - e.created_at) = ground arith in
        rw young (ap (◌∷◌ e) (sym (fresh-All now life e.created_at es h o.0)))
  ]

  -- When creation times do not go down, stopping at the first fresh entry loses nothing: what is
  -- left is exactly the entries that are not expired, in their order.
  pub remove_expired-fresh :
      (now : ℕ) (b : TimeExpiringBuffer A)
      → IsOrdered b.buffer
      → (remove_expired now b).buffer ≡ fresh now b.entry_lifetime b.buffer
  unfolding remove_expired
  remove_expired-fresh now b o = pop_expired-fresh now b.entry_lifetime b.buffer o

  pub new-IsTimely : (clock life : ℕ) → IsTimely clock (new {A = A} life)
  unfolding new
  new-IsTimely clock life = record { ordered = tt; past = tt }

  IsOrdered-append :
      (es : List (BufferEntry A)) (e : BufferEntry A)
      → IsOrdered es
      → All (λ x. x.created_at ≤ e.created_at) es
      → IsOrdered (es ++ e ∷ [])
  IsOrdered-append [] e o h = (tt, tt)
  IsOrdered-append (x ∷ es) e o h =
      (All-append _ es (e ∷ []) o.0 (h.0, tt), IsOrdered-append es e o.1 h.1)

  pop_expired-All {κ} :
      (P : BufferEntry A → Type κ) (now life : ℕ) (es : List (BufferEntry A))
      → All P es
      → All P (pop_expired now life es)
  unfolding pop_expired
  pop_expired-All P now life [] h = tt
  pop_expired-All P now life (e ∷ es) h = elim (Bool-cases (is_expired now life e)) [
    | inl old ↦ rw old (pop_expired-All P now life es h.1)
    | inr young ↦ rw young h
  ]

  pop_expired-IsOrdered :
      (now life : ℕ) (es : List (BufferEntry A))
      → IsOrdered es
      → IsOrdered (pop_expired now life es)
  unfolding pop_expired
  pop_expired-IsOrdered now life [] o = tt
  pop_expired-IsOrdered now life (e ∷ es) o = elim (Bool-cases (is_expired now life e)) [
    | inl old ↦ rw old (pop_expired-IsOrdered now life es o.1)
    | inr young ↦ rw young o
  ]

  pub push_back-IsTimely :
      (clock now tid : ℕ) (value : A) (b : TimeExpiringBuffer A)
      → clock ≤ now
      → IsTimely clock b
      → IsTimely now (push_back now b tid value)
  unfolding push_back push_back_at
  push_back-IsTimely clock now tid value b h t = record {
    ordered =
        IsOrdered-append b.buffer _ t.ordered
          (All-mono (λ x. x.created_at ≤ clock) _ b.buffer (λ x p. omega arith) t.past);
    past =
        All-append _ b.buffer _
          (All-mono (λ x. x.created_at ≤ clock) _ b.buffer (λ x p. omega arith) t.past)
          (omega arith, tt);
  }

  pub remove_expired-IsTimely :
      (clock now : ℕ) (b : TimeExpiringBuffer A)
      → clock ≤ now
      → IsTimely clock b
      → IsTimely now (remove_expired now b)
  unfolding remove_expired
  remove_expired-IsTimely clock now b h t = record {
    ordered = pop_expired-IsOrdered now b.entry_lifetime b.buffer t.ordered;
    past =
        pop_expired-All _ now b.entry_lifetime b.buffer
          (All-mono (λ x. x.created_at ≤ clock) _ b.buffer (λ x p. omega arith) t.past);
  }
