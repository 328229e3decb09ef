-- ===== src/SamplesSerializer/Samples.antt =====
-- The loop over the samples in `SamplesSerializer::new` (src/sampler.rs): when it panics, and what it
-- returns otherwise.
use profiler_rs.Address
use profiler_rs.Address.{ProcessMemoryAddress}
use profiler_rs.NativeStack.{NativeStack}
use profiler_rs.Prelude.{
  ℕ, ◌+◌, ◌≡◌, refl, List, [], ◌∷◌, ◌++◌, Option, none, some, ok, ◌>>=◌, arith, length, keep, map,
  reverse, Bool-cases, List-cases, inl, inr, ap, ◌∙◌, append-nil, append_assoc,
}
use profiler_rs.SamplesSerializer.{
  Sample, StackTable, Build, find_stack, round, stack_at, push_stack, add_frames, finish_sample,
  add_sample, add_samples,
}
use profiler_rs.SamplesSerializer.Frames.{
  is_frame, Walked, stop, frame, Lands-lt, add_frames-Walked,
}
use profiler_rs.SamplesSerializer.Search.{stack, walk, Lands, miss, find_stack-Lands}
use profiler_rs.TimeExpiringBuffer.{BufferEntry}

-- The frames of a sample, root first: the array is read from its end, and a null is passed over.
abbrev pub frames : NativeStack → List ProcessMemoryAddress
frames s = keep is_frame (reverse s.instruction_ptrs)

-- Where the search of a sample starts: before the first sample there is no index and no table, later
-- it is the table's start.
abbrev pub IsReady : StackTable → Option ℕ → Type 0
IsReady table none = table ≡ []
IsReady table (some i) = i ≡ 0

find_stack-first :
    (table : StackTable) (index : Option ℕ) (ptr : ProcessMemoryAddress)
    → IsReady table index
    → (j : ℕ) × (table' : StackTable) × (find_stack (length table + 1) ptr (walk table index none)
        ≡ ok (walk table' (some j) (some j)))
      × Lands table none 0 ptr j table'
unfolding find_stack round stack_at push_stack
find_stack-first [] none ptr r =
    (0, stack none ptr ∷ [], refl, miss (λ k e p q at. absurd (omega arith)) refl refl)
find_stack-first (x ∷ table) none ptr r = cc
find_stack-first table (some i) ptr r =
    rw r (find_stack-Lands (length table + 1) table none 0 ptr (omega arith) (omega arith))

pub add_frames-null :
    (fs : List ProcessMemoryAddress) (table : StackTable) (index : Option ℕ)
    → keep is_frame fs ≡ []
    → add_frames fs (walk table index none) ≡ ok (walk table index none)
unfolding add_frames
add_frames-null [] table index e = refl
add_frames-null (f ∷ fs) table index e = elim (Bool-cases (Address.is_null f)) [
  | inl null ↦ rw (null, add_frames) (add_frames-null fs table index (rw null at e))
  | inr real ↦ let e' : f ∷ keep is_frame fs ≡ [] = rw real at e in cc
]

add_frames-first :
    (fs : List ProcessMemoryAddress) (table : StackTable) (index : Option ℕ)
    (g : ProcessMemoryAddress) (gs : List ProcessMemoryAddress)
    → IsReady table index
    → keep is_frame fs ≡ g ∷ gs
    → (j : ℕ) × (table' : StackTable) × (add_frames fs (walk table index none)
        ≡ ok (walk table' (some j) (some j)))
      × Walked table none 0 (keep is_frame fs) j table'
unfolding add_frames
add_frames-first [] table index g gs r e = cc
add_frames-first (f ∷ fs) table index g gs r e = elim (Bool-cases (Address.is_null f)) [
  | inl null ↦ rw (null, add_frames) (add_frames-first fs table index g gs r (rw null at e))
  | inr real ↦
      let (j, table', run, lands) = find_stack-first table index f r in
      let (k, table'', run', walked) =
        add_frames-Walked fs table' j (omega (arith, Lands-lt lands)) in
      (
        k,
        table'',
        rw (real, add_frames) (ap (λ m. m >>= add_frames fs) run ∙ run'),
        rw real (frame lands walked),
      )
]

abbrev pub built : StackTable → List ℕ → Build
built table indices = record {
  stack_table = table;
  stack_index = some 0;
  buffer_entry_to_stack_table = indices;
}

-- A sample with a frame adds its frames and the index where the last search ended.
pub add_sample-first :
    (s : NativeStack) (b : Build) (g : ProcessMemoryAddress) (gs : List ProcessMemoryAddress)
    → IsReady b.stack_table b.stack_index
    → frames s ≡ g ∷ gs
    → (j : ℕ) × (table' : StackTable) × (add_sample s b
        ≡ ok (built table' (b.buffer_entry_to_stack_table ++ j ∷ [])))
      × Walked b.stack_table none 0 (frames s) j table'
unfolding add_sample finish_sample
add_sample-first s b g gs r e =
    let (j, table', run, walked) =
      add_frames-first (reverse s.instruction_ptrs) b.stack_table b.stack_index g gs r e in
    (j, table', rw (run, add_sample), walked)

-- The samples of a thread, one after the other: a sample with no frame gets the index 0.
pub data Sampled
    : StackTable → List (List ProcessMemoryAddress) → List ℕ → StackTable → Type 0 where
  done : {table : StackTable} → Sampled table [] [] table
  sample :
      {table table' table'' : StackTable} {j : ℕ} {js : List ℕ} {fs : List ProcessMemoryAddress}
      {rest : List (List ProcessMemoryAddress)}
      → Walked table none 0 fs j table'
      → Sampled table' rest js table''
      → Sampled table (fs ∷ rest) (j ∷ js) table''

add_sample-later :
    (s : NativeStack) (table : StackTable) (indices : List ℕ)
    → (j : ℕ) × (table' : StackTable) × (add_sample s (built table indices)
        ≡ ok (built table' (indices ++ j ∷ [])))
      × Walked table none 0 (frames s) j table'
unfolding add_sample finish_sample
add_sample-later s table indices = elim (List-cases (frames s)) [
  | inl none_left ↦ (
    0,
    table,
    rw (add_frames-null (reverse s.instruction_ptrs) table (some 0) none_left, add_sample),
    rw none_left stop,
  )
  | inr (g, gs, e) ↦ add_sample-first s (built table indices) g gs refl e
]

abbrev pub stacks : List (BufferEntry Sample) → List (List ProcessMemoryAddress)
stacks = map (λ e. frames e.value.native_stack)

pub add_samples-Sampled :
    (es : List (BufferEntry Sample)) (table : StackTable) (indices : List ℕ)
    → (js : List ℕ) × (table' : StackTable) × (add_samples es (built table indices)
        ≡ ok (built table' (indices ++ js)))
      × Sampled table (stacks es) js table'
unfolding add_samples
add_samples-Sampled [] table indices = ([], table, rw append-nil, done)
add_samples-Sampled (e ∷ es) table indices =
    let (j, table', run, walked) = add_sample-later e.value.native_stack table indices in
    let (js, table'', run', sampled) = add_samples-Sampled es table' (indices ++ j ∷ []) in
    (
      j ∷ js,
      table'',
      ap (λ m. m >>= add_samples es) run
          ∙ (run' ∙ ap (λ l. ok (built table'' l)) (append_assoc indices (j ∷ []) js)),
      sample walked sampled,
    )
