-- ===== src/SamplesSerializer/Search.antt =====
-- The inner `loop` of `SamplesSerializer::new` (src/sampler.rs): the search for a frame in the stack
-- table, from the current index on.
use mathlib.Core.Bool.{false≢true}
use native.Mathlib.Decide.{ℕ_discrete}
use profiler_rs.Address
use profiler_rs.Address.{ProcessMemoryAddress}
use profiler_rs.Prelude.{
  ℕ, zero, suc, ◌+◌, ◌≤◌, ◌<◌, ◌≡◌, refl, ◌≢◌, inl, inr, [], ◌∷◌, ◌++◌, true, false, Option, none,
  some, ok, arith, length, get_elem?, Bool-cases, Option-cases, get_elem?-lt, none-ne-some,
  eq_of_some, sym, ap, ◌∙◌,
}
use profiler_rs.SamplesSerializer.{
  StackForSerialization, StackTable, Walk, stack_at, advance, push_stack, round, find_stack, break,
  again,
}

abbrev pub stack : Option ℕ → ProcessMemoryAddress → StackForSerialization
stack last ptr = record { prefix = last; instruction_ptr = ptr }

abbrev pub walk : StackTable → Option ℕ → Option ℕ → Walk
walk table i last = record {
  stack_table = table;
  stack_index = i;
  last_matching_stack_index = last;
}

-- No entry of the table at `i` or behind it, and before `j`, has the address.
abbrev pub NoneBetween : StackTable → ℕ → ℕ → ProcessMemoryAddress → Type 0
NoneBetween table i j ptr =
    (k : ℕ) (e : StackForSerialization)
    → i ≤ k
    → k < j
    → get_elem? table k ≡ some e
    → e.instruction_ptr ≢ ptr

-- A search for `ptr` from `i` on ends at `j` in `table'`: the first entry with the address, or a new
-- last entry if there is none.
pub data Lands (table : StackTable) (last : Option ℕ) (i : ℕ) (ptr : ProcessMemoryAddress) (j : ℕ)
    (table' : StackTable) : Type 0 where
  hit :
      (e : StackForSerialization)
      → i ≤ j
      → get_elem? table j ≡ some e
      → e.instruction_ptr ≡ ptr
      → NoneBetween table i j ptr
      → table' ≡ table
      → Lands table last i ptr j table'
  miss :
      NoneBetween table i (length table) ptr
      → j ≡ length table
      → table' ≡ table ++ stack last ptr ∷ []
      → Lands table last i ptr j table'

pub eq_iff :
    (a b : ProcessMemoryAddress) → (Address.eq a b ≡ true → a ≡ b) × (a ≡ b → Address.eq a b ≡ true)
unfolding Address.eq
eq_iff a b = (λ h. ground arith, λ h. ground arith)

round-hit :
    (table : StackTable) (last : Option ℕ) (i : ℕ) (ptr : ProcessMemoryAddress)
    (e : StackForSerialization)
    → get_elem? table i ≡ some e
    → Address.eq ptr e.instruction_ptr ≡ true
    → round ptr (walk table (some i) last) ≡ break (walk table (some i) (some i))
unfolding round stack_at
round-hit table last i ptr e at same = rw (at, round) (rw same)

round-next :
    (table : StackTable) (last : Option ℕ) (i : ℕ) (ptr : ProcessMemoryAddress)
    (e : StackForSerialization)
    → get_elem? table i ≡ some e
    → Address.eq ptr e.instruction_ptr ≡ false
    → round ptr (walk table (some i) last) ≡ again (walk table (some (i + 1)) last)
unfolding round stack_at advance
round-next table last i ptr e at other = rw (at, round) (rw other)

round-end :
    (table : StackTable) (last : Option ℕ) (i : ℕ) (ptr : ProcessMemoryAddress)
    → get_elem? table i ≡ none
    → round ptr (walk table (some i) last)
      ≡ break (walk (table ++ stack last ptr ∷ []) (some (length table)) (some (length table)))
unfolding round stack_at push_stack
round-end table last i ptr at = rw (at, round)

none_then_some :
    (table : StackTable) (i k : ℕ) (e : StackForSerialization)
    → get_elem? table i ≡ none
    → i ≤ k
    → get_elem? table k ≢ some e
none_then_some [] i k e at h at' = none-ne-some at'
none_then_some (x ∷ table) zero k e at h at' = none-ne-some (sym at)
none_then_some (x ∷ table) (suc i) zero e at h at' = absurd (omega arith)
none_then_some (x ∷ table) (suc i) (suc k) e at h at' =
    none_then_some table i k e at (omega arith) at'

NoneBetween-back :
    (table : StackTable) (i j : ℕ) (ptr : ProcessMemoryAddress) (e : StackForSerialization)
    → get_elem? table i ≡ some e
    → e.instruction_ptr ≢ ptr
    → NoneBetween table (i + 1) j ptr
    → NoneBetween table i j ptr
NoneBetween-back table i j ptr e at other n k e' p q at' = elim (ℕ_discrete i k) [
  | yes same ↦ λ h.
      other
        (ap (λ x. x.instruction_ptr) (eq_of_some (sym at ∙ (ap (get_elem? table) same ∙ at'))) ∙ h)
  | no differ ↦ n k e' (omega arith) q at'
]

-- A search that passes the entry at `i` goes on from the next.
Lands-back :
    {table table' : StackTable} {last : Option ℕ} {i j : ℕ} {ptr : ProcessMemoryAddress}
    (e : StackForSerialization)
    → get_elem? table i ≡ some e
    → e.instruction_ptr ≢ ptr
    → Lands table last (i + 1) ptr j table'
    → Lands table last i ptr j table'
Lands-back {table} {i} {j} {ptr} e at other (hit e' h at' is n same) =
    hit e' (omega arith) at' is (NoneBetween-back table i j ptr e at other n) same
Lands-back {table} {i} {ptr} e at other (miss n end grown) =
    miss (NoneBetween-back table i (length table) ptr e at other n) end grown

-- With fuel past the end of the table the loop ends, and as the search should.
pub find_stack-Lands :
    (fuel : ℕ) (table : StackTable) (last : Option ℕ) (i : ℕ) (ptr : ProcessMemoryAddress)
    → i ≤ length table
    → length table < fuel + i
    → (j : ℕ) × (table' : StackTable) × (find_stack fuel ptr (walk table (some i) last)
        ≡ ok (walk table' (some j) (some j)))
      × Lands table last i ptr j table'
unfolding find_stack round
find_stack-Lands zero table last i ptr h f = absurd (omega arith)
find_stack-Lands (suc fuel) table last i ptr h f = elim (Option-cases (get_elem? table i)) [
  | inl at ↦ (
    length table,
    table ++ stack last ptr ∷ [],
    rw (round-end table last i ptr at),
    miss (λ k e p q at'. absurd (none_then_some table i k e at p at')) refl refl,
  )
  | inr (e, at) ↦ elim (Bool-cases (Address.eq ptr e.instruction_ptr)) [
    | inl same ↦ (
      i,
      table,
      rw (round-hit table last i ptr e at same),
      hit e (omega arith) at (sym ((eq_iff ptr e.instruction_ptr).0 same))
          (λ k e' p q. absurd (omega arith)) refl,
    )
    | inr other ↦
        let (j, table', run, lands) =
          find_stack-Lands fuel table last (i + 1) ptr (omega (arith, get_elem?-lt table i at))
            (omega arith) in
        (
          j,
          table',
          rw (round-next table last i ptr e at other) run,
          Lands-back e at (λ is. false≢true (sym other ∙ (eq_iff ptr e.instruction_ptr).1 (sym is)))
              lands,
        )
  ]
]
