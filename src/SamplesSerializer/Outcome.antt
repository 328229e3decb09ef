-- ===== src/SamplesSerializer/Outcome.antt =====
-- How `SamplesSerializer::new` (src/sampler.rs) ends.
use profiler_rs.Address.{ProcessMemoryAddress}
use profiler_rs.Prelude.{
  ℕ, ◌≡◌, refl, ◌≢◌, List, [], ◌∷◌, Option, none, some, ok, err, ◌>>=◌, reverse, List-cases, inl,
  inr, ap, ◌∙◌, subst, ◌⊎◌,
}
use profiler_rs.SamplesSerializer.{
  Sample, StackTable, panicked, SamplesSerializer, add_sample, add_samples, finish_sample, start,
  new,
}
use profiler_rs.SamplesSerializer.Frames.{Extends, Extends-refl, Extends-trans, Walked-Extends}
use profiler_rs.SamplesSerializer.Samples.{
  frames, stacks, Sampled, done, sample, add_frames-null, add_sample-first, add_samples-Sampled,
}
use profiler_rs.TimeExpiringBuffer.{TimeExpiringBuffer, BufferEntry, iter_thread}

-- The first of the samples, if there is one, has a frame that is not null.
abbrev pub FirstHasFrame : List (BufferEntry Sample) → Type 0
FirstHasFrame [] = Unit
FirstHasFrame (e ∷ _) = frames e.value.native_stack ≢ []

samples-start :
    (es : List (BufferEntry Sample))
    → FirstHasFrame es
    → (js : List ℕ) × (table : StackTable) × (index : Option ℕ) × (add_samples es start
        ≡ ok
            (record { stack_table = table; stack_index = index; buffer_entry_to_stack_table = js }))
      × Sampled [] (stacks es) js table
unfolding add_samples
samples-start [] h = ([], [], none, refl, done)
samples-start (e ∷ es) h = elim (List-cases (frames e.value.native_stack)) [
  | inl none_left ↦ absurd (h none_left)
  | inr (g, gs, is) ↦
      let (j, table, run, walked) = add_sample-first e.value.native_stack start g gs refl is in
      let (js, table', run', sampled) = add_samples-Sampled es table (j ∷ []) in
      (j ∷ js, table', some 0, ap (λ m. m >>= add_samples es) run ∙ run', sample walked sampled)
]

abbrev pub serializer : ℕ → TimeExpiringBuffer Sample → StackTable → List ℕ → SamplesSerializer
serializer at buffer table js = record {
  profiler_start = at;
  buffer = buffer;
  stack_table = table;
  buffer_entry_to_stack_table = js;
}

pub new-Sampled :
    (at : ℕ) (buffer : TimeExpiringBuffer Sample) (tid : ℕ)
    → FirstHasFrame (iter_thread buffer tid)
    → (s : SamplesSerializer) × (new at buffer tid ≡ ok s)
      × Sampled [] (stacks (iter_thread buffer tid)) s.buffer_entry_to_stack_table s.stack_table
      × (s.buffer ≡ buffer)
      × (s.profiler_start ≡ at)
unfolding new
new-Sampled at buffer tid h =
    let (js, table, index, run, sampled) = samples-start (iter_thread buffer tid) h in
    (serializer at buffer table js, rw (run, new), sampled, refl, refl)

-- Whatever the later samples are, a first sample with no frame makes `new` panic.
new-panics :
    (at : ℕ) (buffer : TimeExpiringBuffer Sample) (tid : ℕ) (e : BufferEntry Sample)
    (es : List (BufferEntry Sample))
    → iter_thread buffer tid ≡ e ∷ es
    → frames e.value.native_stack ≡ []
    → new at buffer tid ≡ err panicked
unfolding new add_samples add_sample finish_sample
new-panics at buffer tid e es is null =
    let run = add_frames-null (reverse e.value.native_stack.instruction_ptrs) [] none null in
    rw (is, new) (rw (run, add_sample))

-- `new` panics exactly if the thread's first sample has no frame that is not null, and otherwise it
-- returns: the fuel of the inner loop never runs out.
pub new_outcome :
    (at : ℕ) (buffer : TimeExpiringBuffer Sample) (tid : ℕ)
    → (FirstHasFrame (iter_thread buffer tid)
        → (s : SamplesSerializer) × (new at buffer tid ≡ ok s))
      × (¬ FirstHasFrame (iter_thread buffer tid) → new at buffer tid ≡ err panicked)
new_outcome at buffer tid = (returns, panics)
  where
    returns :
        FirstHasFrame (iter_thread buffer tid)
        → (s : SamplesSerializer) × (new at buffer tid ≡ ok s)
    returns h = let (s, run, _, _, _) = new-Sampled at buffer tid h in (s, run)

    go :
        (es : List (BufferEntry Sample))
        → iter_thread buffer tid ≡ es
        → ¬ FirstHasFrame es
        → new at buffer tid ≡ err panicked
    go [] is h = absurd (h tt)
    go (e ∷ es) is h = elim (List-cases (frames e.value.native_stack)) [
      | inl null ↦ new-panics at buffer tid e es is null
      | inr (g, gs, some_left) ↦ absurd (h (λ null. cc))
    ]

    panics : ¬ FirstHasFrame (iter_thread buffer tid) → new at buffer tid ≡ err panicked
    panics = go (iter_thread buffer tid) refl

pub Sampled-Extends :
    {table table' : StackTable} {ss : List (List ProcessMemoryAddress)} {js : List ℕ}
    → Sampled table ss js table'
    → Extends table table'
Sampled-Extends {table} done = Extends-refl table
Sampled-Extends (sample walked rest) = Extends-trans (Walked-Extends walked) (Sampled-Extends rest)

pub first_cases : (es : List (BufferEntry Sample)) → FirstHasFrame es ⊎ (¬ FirstHasFrame es)
first_cases [] = inl tt
first_cases (e ∷ es) = elim (List-cases (frames e.value.native_stack)) [
  | inl null ↦ inr (λ h. h null)
  | inr (g, gs, is) ↦ inl (λ null. cc)
]

-- What a serializer that `new` returns is made of.
pub new_ok :
    (at : ℕ) (buffer : TimeExpiringBuffer Sample) (tid : ℕ) (s : SamplesSerializer)
    → new at buffer tid ≡ ok s
    → FirstHasFrame (iter_thread buffer tid)
      × Sampled [] (stacks (iter_thread buffer tid)) s.buffer_entry_to_stack_table s.stack_table
      × (s.buffer ≡ buffer)
      × (s.profiler_start ≡ at)
new_ok at buffer tid s run = elim (first_cases (iter_thread buffer tid)) [
  | inl h ↦
      let (s', run', sampled, buffer', at') = new-Sampled at buffer tid h in
      let same : s' ≡ s = cc in
      subst
        (λ u.
          FirstHasFrame (iter_thread buffer tid)
          × Sampled [] (stacks (iter_thread buffer tid)) u.buffer_entry_to_stack_table u.stack_table
          × (u.buffer ≡ buffer)
          × (u.profiler_start ≡ at))
        same (h, sampled, buffer', at')
  | inr h ↦ let panic = (new_outcome at buffer tid).1 h in cc
]
