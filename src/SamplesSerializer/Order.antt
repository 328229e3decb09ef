-- ===== src/SamplesSerializer/Order.antt =====
-- The order of the stack table that `SamplesSerializer::new` (src/sampler.rs) builds, and the indices of
-- the samples.
use profiler_rs.Address.{ProcessMemoryAddress}
use profiler_rs.Prelude.{
  ℕ, zero, suc, ◌<◌, ◌≡◌, refl, ◌≢◌, List, [], ◌∷◌, Option, none, some, ok, arith, length,
  get_elem?, get_elem?-snoc, length-map, All, All-get_elem?, inl, inr, sym, ap, ◌∙◌, none-ne-some,
  eq_of_some, subst,
}
use profiler_rs.SamplesSerializer.{
  Sample, StackForSerialization, StackTable, SamplesSerializer, new,
}
use profiler_rs.SamplesSerializer.Frames.{
  Walked, stop, frame, Lands-lt, Lands-entry, Walked-Extends,
}
use profiler_rs.SamplesSerializer.Outcome.{FirstHasFrame, new_ok, Sampled-Extends}
use profiler_rs.SamplesSerializer.Samples.{stacks, Sampled, done, sample}
use profiler_rs.SamplesSerializer.Search.{stack, Lands, hit, miss}
use profiler_rs.TimeExpiringBuffer.{TimeExpiringBuffer, BufferEntry, iter_thread}

-- A leaf stack always stands behind its root: each prefix is a smaller index.
abbrev pub IsWellOrdered : StackTable → Type 0
IsWellOrdered table =
    (k p : ℕ) (e : StackForSerialization) → get_elem? table k ≡ some e → e.prefix ≡ some p → p < k

-- The index of the last match lies in the table.
abbrev pub IsWithin : Option ℕ → StackTable → Type 0
IsWithin none table = Unit
IsWithin (some p) table = p < length table

within :
    (last : Option ℕ) (table : StackTable) (p : ℕ)
    → IsWithin last table
    → last ≡ some p
    → p < length table
within none table p h e = absurd (none-ne-some e)
within (some q) table p h e = omega (arith, eq_of_some e)

pub Lands-IsWellOrdered :
    {table table' : StackTable} {last : Option ℕ} {i j : ℕ} {ptr : ProcessMemoryAddress}
    → IsWellOrdered table
    → IsWithin last table
    → Lands table last i ptr j table'
    → IsWellOrdered table'
Lands-IsWellOrdered o w (hit e h at is n same) = subst IsWellOrdered (sym same) o
Lands-IsWellOrdered {table} {last} {ptr} o w (miss n end grown) =
    subst IsWellOrdered (sym grown) λ k p e at pre.
      elim (get_elem?-snoc table (stack last ptr) e k at) [
        | inl old ↦ o k p e old pre
        | inr (here, is) ↦ omega (arith, within last table p w (ap (λ x. x.prefix) is ∙ pre))
      ]

Walked-IsWellOrdered :
    {table table' : StackTable} {last : Option ℕ} {i j : ℕ} {fs : List ProcessMemoryAddress}
    → IsWellOrdered table
    → IsWithin last table
    → Walked table last i fs j table'
    → IsWellOrdered table'
Walked-IsWellOrdered o w stop = o
Walked-IsWellOrdered o w (frame lands rest) =
    Walked-IsWellOrdered (Lands-IsWellOrdered o w lands) (Lands-lt lands) rest

Sampled-IsWellOrdered :
    {table table' : StackTable} {ss : List (List ProcessMemoryAddress)} {js : List ℕ}
    → IsWellOrdered table
    → Sampled table ss js table'
    → IsWellOrdered table'
Sampled-IsWellOrdered o done = o
Sampled-IsWellOrdered o (sample walked rest) =
    Sampled-IsWellOrdered (Walked-IsWellOrdered o tt walked) rest

-- In every table that `new` returns, the prefix of an entry is the index of an earlier entry.
pub new-IsWellOrdered :
    (at : ℕ) (buffer : TimeExpiringBuffer Sample) (tid : ℕ) (s : SamplesSerializer)
    → new at buffer tid ≡ ok s
    → IsWellOrdered s.stack_table
new-IsWellOrdered at buffer tid s run =
    Sampled-IsWellOrdered (λ k p e h. absurd (none-ne-some h)) (new_ok at buffer tid s run).1

-- The last of the frames, root first.
abbrev pub leaf : List ProcessMemoryAddress → Option ProcessMemoryAddress
leaf [] = none
leaf (f ∷ []) = some f
leaf (f ∷ g ∷ fs) = leaf (g ∷ fs)

-- The entry at an index has the address.
abbrev pub Names : StackTable → ℕ → ProcessMemoryAddress → Type 0
Names table j f =
    (e : StackForSerialization) × (get_elem? table j ≡ some e) × (e.instruction_ptr ≡ f)

Walked-leaf :
    {table table' : StackTable} {last : Option ℕ} {i j : ℕ} {fs : List ProcessMemoryAddress}
    (f : ProcessMemoryAddress)
    → Walked table last i fs j table'
    → leaf fs ≡ some f
    → Names table' j f
Walked-leaf f stop is = absurd (none-ne-some is)
Walked-leaf {table'} {j} f (frame lands stop) is =
    subst (Names table' j) (eq_of_some is) (Lands-entry lands)
Walked-leaf f (frame lands (frame lands' rest)) is = Walked-leaf f (frame lands' rest) is

Sampled-leaf :
    {table table' : StackTable} {ss : List (List ProcessMemoryAddress)} {js : List ℕ} (k : ℕ)
    (fs : List ProcessMemoryAddress) (f : ProcessMemoryAddress)
    → Sampled table ss js table'
    → get_elem? ss k ≡ some fs
    → leaf fs ≡ some f
    → (j : ℕ) × (get_elem? js k ≡ some j) × Names table' j f
Sampled-leaf k fs f done at is = absurd (none-ne-some at)
Sampled-leaf zero fs f (sample {j} walked rest) at is =
    let (e, here, named) = Walked-leaf f walked (ap leaf (eq_of_some at) ∙ is) in
    (j, refl, (e, (Sampled-Extends rest).kept j e here, named))
Sampled-leaf (suc k) fs f (sample walked rest) at is = Sampled-leaf k fs f rest at is

Sampled-length :
    {table table' : StackTable} {ss : List (List ProcessMemoryAddress)} {js : List ℕ}
    → Sampled table ss js table'
    → length js ≡ length ss
Sampled-length done = refl
Sampled-length (sample walked rest) = ap suc (Sampled-length rest)

-- A walk over no frame ends where it starts, at 0.
Walked-lt :
    {table table' : StackTable} {last : Option ℕ} {i j : ℕ} {fs : List ProcessMemoryAddress}
    → i < length table
    → Walked table last i fs j table'
    → j < length table'
Walked-lt h stop = h
Walked-lt h (frame lands rest) = Walked-lt (Lands-lt lands) rest

Sampled-lt :
    {table table' : StackTable} {ss : List (List ProcessMemoryAddress)} {js : List ℕ}
    → 0 < length table
    → Sampled table ss js table'
    → All (λ j. j < length table') js
Sampled-lt h done = tt
Sampled-lt h (sample walked rest) =
    let here = Walked-lt h walked in
    let longer = (Walked-Extends walked).longer in
    (omega (arith, (Sampled-Extends rest).longer), Sampled-lt (omega arith) rest)

Walked-within :
    {table table' : StackTable} {last : Option ℕ} {i j : ℕ} {fs : List ProcessMemoryAddress}
    → fs ≢ []
    → Walked table last i fs j table'
    → j < length table'
Walked-within h stop = absurd (h refl)
Walked-within h (frame lands rest) = Walked-lt (Lands-lt lands) rest

Sampled-within :
    {table : StackTable} {js : List ℕ} (es : List (BufferEntry Sample))
    → FirstHasFrame es
    → Sampled [] (stacks es) js table
    → All (λ j. j < length table) js
Sampled-within [] h done = tt
Sampled-within (e ∷ es) h (sample walked rest) =
    let here = Walked-within h walked in
    (omega (arith, (Sampled-Extends rest).longer), Sampled-lt (omega arith) rest)

-- When `new` returns, each sample of the thread has one index, in the samples' order; each index lies
-- in the stack table; and the index of a sample with a frame names an entry with the address of the
-- sample's leaf frame.
pub new_indices :
    (at : ℕ) (buffer : TimeExpiringBuffer Sample) (tid : ℕ) (s : SamplesSerializer)
    → new at buffer tid ≡ ok s
    → (length s.buffer_entry_to_stack_table ≡ length (iter_thread buffer tid))
      × ((k j : ℕ) → get_elem? s.buffer_entry_to_stack_table k ≡ some j → j < length s.stack_table)
      × ((k : ℕ) (fs : List ProcessMemoryAddress) (f : ProcessMemoryAddress)
          → get_elem? (stacks (iter_thread buffer tid)) k ≡ some fs
          → leaf fs ≡ some f
          → (j : ℕ) × (get_elem? s.buffer_entry_to_stack_table k ≡ some j)
            × Names s.stack_table j f)
new_indices at buffer tid s run =
    let (first, sampled, _, _) = new_ok at buffer tid s run in
    (
      Sampled-length sampled ∙ length-map _ (iter_thread buffer tid),
      λ k j h.
          All-get_elem? (λ j. j < length s.stack_table) s.buffer_entry_to_stack_table k
            (Sampled-within (iter_thread buffer tid) first sampled) h,
      λ k fs f. Sampled-leaf k fs f sampled,
    )
