-- ===== src/SamplesSerializer/Frames.antt =====
-- The loop over the frames of one sample in `SamplesSerializer::new` (src/sampler.rs), as a chain of
-- searches, and what the chain leaves of the table.
use profiler_rs.Address
use profiler_rs.Address.{ProcessMemoryAddress}
use profiler_rs.Prelude.{
  ℕ, ◌+◌, ◌≤◌, ◌<◌, ◌≡◌, refl, List, [], ◌∷◌, not, Bool, Option, some, ok, ◌>>=◌, arith, length,
  keep, get_elem?, Bool-cases, inl, inr, get_elem?-lt, get_elem?-append, get_elem?-append_last,
  length-append, sym, ap, ◌∙◌, subst,
}
use profiler_rs.SamplesSerializer.{StackForSerialization, StackTable, add_frames}
use profiler_rs.SamplesSerializer.Search.{stack, walk, Lands, hit, miss, find_stack-Lands}

-- The frames that count: those that are not null.
abbrev pub is_frame : ProcessMemoryAddress → Bool
is_frame ptr = not (Address.is_null ptr)

-- The searches for a row of frames, each from where the one before it ended.
pub data Walked
    : StackTable → Option ℕ → ℕ → List ProcessMemoryAddress → ℕ → StackTable → Type 0 where
  stop : {table : StackTable} {last : Option ℕ} {i : ℕ} → Walked table last i [] i table
  frame :
      {table table' table'' : StackTable} {last : Option ℕ} {i j k : ℕ} {ptr : ProcessMemoryAddress}
      {rest : List ProcessMemoryAddress}
      → Lands table last i ptr j table'
      → Walked table' (some j) j rest k table''
      → Walked table last i (ptr ∷ rest) k table''

-- The longer table has every entry of the shorter at its place.
pub record Extends (table table' : StackTable) : Type 0 where
  pub kept :
      (k : ℕ) (e : StackForSerialization) → get_elem? table k ≡ some e → get_elem? table' k ≡ some e
  pub longer : length table ≤ length table'

pub Extends-refl : (table : StackTable) → Extends table table
Extends-refl table = record { kept = λ k e h. h; longer = omega arith }

pub Extends-trans : {t u v : StackTable} → Extends t u → Extends u v → Extends t v
Extends-trans a b = record {
  kept = λ k e h. b.kept k e (a.kept k e h);
  longer = omega (arith, a.longer, b.longer);
}

pub Lands-Extends :
    {table table' : StackTable} {last : Option ℕ} {i j : ℕ} {ptr : ProcessMemoryAddress}
    → Lands table last i ptr j table'
    → Extends table table'
Lands-Extends {table} (hit e h at is n same) = subst (Extends table) (sym same) (Extends-refl table)
Lands-Extends {table} {last} {ptr} (miss n end grown) = subst (Extends table) (sym grown) (record {
  kept = λ k e. get_elem?-append table _ k;
  longer = omega (arith, length-append table (stack last ptr ∷ []));
})

pub Walked-Extends :
    {table table' : StackTable} {last : Option ℕ} {i j : ℕ} {fs : List ProcessMemoryAddress}
    → Walked table last i fs j table'
    → Extends table table'
Walked-Extends {table} stop = Extends-refl table
Walked-Extends (frame lands walked) = Extends-trans (Lands-Extends lands) (Walked-Extends walked)

-- Where a search ends stands an entry with the address.
pub Lands-entry :
    {table table' : StackTable} {last : Option ℕ} {i j : ℕ} {ptr : ProcessMemoryAddress}
    → Lands table last i ptr j table'
    → (e : StackForSerialization) × (get_elem? table' j ≡ some e) × (e.instruction_ptr ≡ ptr)
Lands-entry {j} (hit e h at is n same) = (e, ap (λ t. get_elem? t j) same ∙ at, is)
Lands-entry {table} {last} {ptr} (miss n end grown) =
    (stack last ptr, rw (grown, end) (get_elem?-append_last table (stack last ptr)), refl)

pub Lands-lt :
    {table table' : StackTable} {last : Option ℕ} {i j : ℕ} {ptr : ProcessMemoryAddress}
    → Lands table last i ptr j table'
    → j < length table'
Lands-lt {table'} {j} lands = get_elem?-lt table' j (Lands-entry lands).1

-- The loop, from a place in the table on, does the searches for the frames that are not null.
pub add_frames-Walked :
    (fs : List ProcessMemoryAddress) (table : StackTable) (i : ℕ)
    → i ≤ length table
    → (j : ℕ) × (table' : StackTable) × (add_frames fs (walk table (some i) (some i))
        ≡ ok (walk table' (some j) (some j)))
      × Walked table (some i) i (keep is_frame fs) j table'
unfolding add_frames
add_frames-Walked [] table i h = (i, table, refl, stop)
add_frames-Walked (f ∷ fs) table i h = elim (Bool-cases (Address.is_null f)) [
  | inl null ↦ rw (null, add_frames) (add_frames-Walked fs table i h)
  | inr real ↦
      let (j, table', run, lands) =
        find_stack-Lands (length table + 1) table (some i) i f h (omega arith) in
      let (k, table'', run', walked) =
        add_frames-Walked fs table' j (omega (arith, Lands-lt lands)) in
      (
        k,
        table'',
        rw (real, add_frames) (ap (λ m. m >>= add_frames fs) run ∙ run'),
        rw real (frame lands walked),
      )
]
