-- ===== src/SamplesSerializer/Misplaced.antt =====
-- The comparison in the search of `SamplesSerializer::new` (src/sampler.rs): the address of an entry, and
-- not its prefix.
use profiler_rs.Address.{ProcessMemoryAddress}
use profiler_rs.Prelude.{
  ℕ, zero, suc, ◌<◌, ◌≡◌, refl, ◌≢◌, List, [], ◌∷◌, none, some, ok, arith, get_elem?, sym, ap, ◌∙◌,
  eq_of_some, subst,
}
use profiler_rs.SamplesSerializer.{
  Sample, StackForSerialization, StackTable, SamplesSerializer, new,
}
use profiler_rs.SamplesSerializer.CallTree.{StackOf, root, above}
use profiler_rs.SamplesSerializer.Frames.{stop, frame}
use profiler_rs.SamplesSerializer.Outcome.{new_ok}
use profiler_rs.SamplesSerializer.Repeats.{Walked-unique}
use profiler_rs.SamplesSerializer.Samples.{stacks, Sampled, done, sample}
use profiler_rs.SamplesSerializer.Search.{stack, hit, miss, NoneBetween}
use profiler_rs.TimeExpiringBuffer.{TimeExpiringBuffer, iter_thread}

Sampled-unique :
    {t u v : StackTable} {ss : List (List ProcessMemoryAddress)} {js ks : List ℕ}
    → Sampled t ss js u
    → Sampled t ss ks v
    → (js ≡ ks) × (u ≡ v)
Sampled-unique done done = (refl, refl)
Sampled-unique {v} {ks} (sample {table' = w} {j} {js} {rest = ss} here rest)
      (sample {table' = w'} {j = k} {js = ks'} here' rest') =
    let (index, table) = Walked-unique here here' in
    let (indices, tables) =
      Sampled-unique rest (subst (λ x. Sampled x ss ks' v) (sym table) rest') in
    (cc, tables)

nothing_before : (t : StackTable) (f : ProcessMemoryAddress) → NoneBetween t 0 0 f
nothing_before t f k e p q at = absurd (omega arith)

no_root :
    {t : StackTable} {f : ProcessMemoryAddress} {fs : List ProcessMemoryAddress}
    → ¬ StackOf t none (f ∷ fs)
no_root h = elim h [ ]

module _ (a b : ProcessMemoryAddress) (differ : a ≢ b) where
  -- `a` alone, `b` alone, then `b` called from `a`.
  abbrev pub alone_then_called : List (List ProcessMemoryAddress)
  alone_then_called = (a ∷ []) ∷ (b ∷ []) ∷ (a ∷ b ∷ []) ∷ []

  abbrev table : StackTable
  table = stack none a ∷ stack none b ∷ []

  not_first :
      (t : StackTable) (k : ℕ) (e : StackForSerialization)
      → k < 1
      → get_elem? (stack none a ∷ t) k ≡ some e
      → e.instruction_ptr ≢ b
  not_first t zero e h at is = differ (ap (λ x. x.instruction_ptr) (eq_of_some at) ∙ is)
  not_first t (suc k) e h at is = absurd (omega arith)

  alone_then_called-Sampled : Sampled [] alone_then_called (0 ∷ 1 ∷ 1 ∷ []) table
  alone_then_called-Sampled = sample (frame (miss (nothing_before [] a) refl refl) stop) (
      sample (frame (miss (λ k e p. not_first [] k e) refl refl) stop) (
        sample
          (frame (hit (stack none a) (omega arith) refl refl (nothing_before table a) refl) (
            frame
              (hit (stack none b) (omega arith) refl refl
                (λ k e p. not_first (stack none b ∷ []) k e) refl)
              stop))
          done))

  one_frame_only : ¬ StackOf table (some 1) (b ∷ a ∷ [])
  one_frame_only (above e at is rest) =
      no_root
        (subst (λ p. StackOf table p (a ∷ [])) (ap (λ x. x.prefix) (sym (eq_of_some at))) rest)

  -- When a thread's samples are the frame `a`, the frame `b`, and `b` called from `a`, for different
  -- addresses, the third sample gets the index of the second: following the prefixes from it gives
  -- `b` alone, and never `b` called from `a`.
  pub new-loses_caller :
      (at : ℕ) (buffer : TimeExpiringBuffer Sample) (tid : ℕ) (s : SamplesSerializer)
      → stacks (iter_thread buffer tid) ≡ alone_then_called
      → new at buffer tid ≡ ok s
      → (get_elem? s.buffer_entry_to_stack_table 2 ≡ some 1)
        × StackOf s.stack_table (some 1) (b ∷ [])
        × (¬ StackOf s.stack_table (some 1) (b ∷ a ∷ []))
  new-loses_caller at buffer tid s is run =
      let sampled = (new_ok at buffer tid s run).1 in
      let (indices, tables) =
        Sampled-unique alone_then_called-Sampled
          (subst (λ l. Sampled [] l s.buffer_entry_to_stack_table s.stack_table) is sampled) in
      (
        ap (λ l. get_elem? l 2) (sym indices),
        subst (λ t. StackOf t (some 1) (b ∷ [])) tables (above (stack none b) refl refl root),
        subst (λ t. ¬ StackOf t (some 1) (b ∷ a ∷ [])) tables one_frame_only,
      )
