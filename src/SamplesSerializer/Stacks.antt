-- ===== src/SamplesSerializer/Stacks.antt =====
-- The stacks that the table of `SamplesSerializer::new` (src/sampler.rs) represents, when the address of
-- a frame determines its caller.
use mathlib.Core.List.{reverse_aux}
use profiler_rs.Address.{ProcessMemoryAddress}
use profiler_rs.Prelude.{
  ℕ, zero, suc, ◌≡◌, refl, ◌≢◌, List, [], ◌∷◌, Option, none, some, ok, reverse, get_elem?,
  get_elem?-lt, All, sym, ◌∙◌, none-ne-some, eq_of_some, subst,
}
use profiler_rs.SamplesSerializer.{Sample, StackTable, SamplesSerializer, new}
use profiler_rs.SamplesSerializer.Frames.{Walked, stop, frame, Lands-entry}
use profiler_rs.SamplesSerializer.Order.{Names}
use profiler_rs.SamplesSerializer.Outcome.{new_ok, Sampled-Extends}
use profiler_rs.SamplesSerializer.Samples.{stacks, Sampled, done, sample}
use profiler_rs.TimeExpiringBuffer.{TimeExpiringBuffer, iter_thread}
use profiler_rs.SamplesSerializer.CallTree.{
  StackOf, root, StackOf-Extends, IsCallPath, IsTree, Lands-IsTree,
}

module _ (caller : ProcessMemoryAddress → Option ProcessMemoryAddress) where
  -- The frames behind one that is placed.
  Walked-IsTree :
      {table table' : StackTable} {i j : ℕ} {fs : List ProcessMemoryAddress}
      (gs : List ProcessMemoryAddress) (a : ProcessMemoryAddress)
      → IsTree caller table
      → Names table i a
      → StackOf table (some i) gs
      → IsCallPath caller (some a) fs
      → Walked table (some i) i fs j table'
      → IsTree caller table' × StackOf table' (some j) (reverse_aux fs gs)
  Walked-IsTree gs a t named so path stop = (t, so)
  Walked-IsTree {table} {i} gs a t named so path (frame {ptr = f} lands rest) =
      let (t', so') =
        Lands-IsTree caller t (get_elem?-lt table i named.1) (a, path.0, named) refl so lands in
      Walked-IsTree (f ∷ gs) f t' (Lands-entry lands) so' path.1 rest

  -- A sample with a frame.
  sample-IsTree :
      {table table' : StackTable} {j : ℕ} {fs : List ProcessMemoryAddress}
      → IsTree caller table
      → IsCallPath caller none fs
      → Walked table none 0 fs j table'
      → IsTree caller table' × (fs ≢ [] → StackOf table' (some j) (reverse fs))
  sample-IsTree t path stop = (t, λ h. absurd (h refl))
  sample-IsTree t path (frame {ptr = f} lands rest) =
      let (t', so') = Lands-IsTree caller t tt path.0 refl root lands in
      let (t'', so'') = Walked-IsTree (f ∷ []) f t' (Lands-entry lands) so' path.1 rest in
      (t'', λ h. so'')

  Sampled-IsTree :
      {table table' : StackTable} {ss : List (List ProcessMemoryAddress)} {js : List ℕ}
      → IsTree caller table
      → All (IsCallPath caller none) ss
      → Sampled table ss js table'
      → IsTree caller table'
  Sampled-IsTree t paths done = t
  Sampled-IsTree t paths (sample walked rest) =
      Sampled-IsTree (sample-IsTree t paths.0 walked).0 paths.1 rest

  Sampled-StackOf :
      {table table' : StackTable} {ss : List (List ProcessMemoryAddress)} {js : List ℕ} (k : ℕ)
      (fs : List ProcessMemoryAddress)
      → IsTree caller table
      → All (IsCallPath caller none) ss
      → Sampled table ss js table'
      → get_elem? ss k ≡ some fs
      → fs ≢ []
      → (j : ℕ) × (get_elem? js k ≡ some j) × StackOf table' (some j) (reverse fs)
  Sampled-StackOf k fs t paths done at h = absurd (none-ne-some at)
  Sampled-StackOf {table'} zero fs t paths (sample {j} walked rest) at h =
      let is = eq_of_some at in
      let so = (sample-IsTree t paths.0 walked).1 (λ e. h (sym is ∙ e)) in
      (
        j,
        refl,
        subst (λ l. StackOf table' (some j) (reverse l)) is
            (StackOf-Extends (Sampled-Extends rest) so),
      )
  Sampled-StackOf (suc k) fs t paths (sample walked rest) at h =
      Sampled-StackOf k fs (sample-IsTree t paths.0 walked).0 paths.1 rest at h

  nil-IsTree : IsTree caller []
  nil-IsTree = record {
    ordered = λ k p e at. absurd (none-ne-some at);
    unique = λ k l e e' at. absurd (none-ne-some at);
    called = λ k e at. absurd (none-ne-some at);
  }

  -- When an address determines its caller in all samples of the thread, and `new` returns, no two
  -- entries of the stack table have the same address, and following the prefixes from the index of a
  -- sample that has a frame gives back exactly the sample's frames, leaf first.
  pub new-StackOf :
      (at : ℕ) (buffer : TimeExpiringBuffer Sample) (tid : ℕ) (s : SamplesSerializer)
      → All (IsCallPath caller none) (stacks (iter_thread buffer tid))
      → new at buffer tid ≡ ok s
      → ((k l : ℕ) (f : ProcessMemoryAddress)
          → Names s.stack_table k f
          → Names s.stack_table l f
          → k ≡ l)
        × ((k : ℕ) (fs : List ProcessMemoryAddress)
            → get_elem? (stacks (iter_thread buffer tid)) k ≡ some fs
            → fs ≢ []
            → (j : ℕ) × (get_elem? s.buffer_entry_to_stack_table k ≡ some j)
              × StackOf s.stack_table (some j) (reverse fs))
  new-StackOf at buffer tid s paths run =
      let (_, sampled, _, _) = new_ok at buffer tid s run in
      let t = Sampled-IsTree nil-IsTree paths sampled in
      (
        λ k l f (e, here, is) (e', here', is'). t.unique k l e e' here here' (is ∙ sym is'),
        λ k fs got h. Sampled-StackOf k fs nil-IsTree paths sampled got h,
      )
