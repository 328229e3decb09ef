-- ===== src/SamplesSerializer/Tables/Rows.antt =====
-- The rows of the JSON tables that `SamplesSerializer` of src/sampler.rs writes.
use profiler_rs.Address
use profiler_rs.Address.{ProcessMemoryAddress}
use profiler_rs.Json.{Json}
use profiler_rs.Prelude.{
  ℕ, zero, suc, ◌+◌, ◌≡◌, refl, List, [], ◌∷◌, some, String, ok, ◌>>=◌, arith, length, enumerate,
  get_elem?, get_elem?-some, sym, ap, ◌∙◌, none-ne-some, eq_of_some,
}
use profiler_rs.SamplesSerializer.{
  Sample, StackForSerialization, StackTable, SamplesSerializer, new,
}
use profiler_rs.SamplesSerializer.Order.{new_indices}
use profiler_rs.SamplesSerializer.Outcome.{new_ok}
use profiler_rs.SamplesSerializer.Tables.{
  as_millis, samples_table, sample_row, sample_rows, serialize_samples, frame_row, frame_rows,
  frames_table, serialize_frame_table,
}
use profiler_rs.StringTable.{StringTable, take_string}
use profiler_rs.StringTable.Interning.{IsConsistent, take_string-IsConsistent, take_string-resolves}
use profiler_rs.TimeExpiringBuffer.{TimeExpiringBuffer, BufferEntry, duration_since, iter_thread}

module _ (J : Json) where
  open J use {Value, array, object, number}

  -- The rows are those of the entries and of their indices, which stand from the `n`-th place on.
  abbrev pub RowsOf : SamplesSerializer → ℕ → List (BufferEntry Sample) → List Value → Type 0
  RowsOf s n es rows =
      (k j : ℕ) (e : BufferEntry Sample)
      → get_elem? es k ≡ some e
      → get_elem? s.buffer_entry_to_stack_table (n + k) ≡ some j
      → get_elem? rows k
        ≡ some (sample_row J j (as_millis (duration_since e.created_at s.profiler_start)))

  RowsOf-cons :
      (s : SamplesSerializer) (n j : ℕ) (e : BufferEntry Sample) (es : List (BufferEntry Sample))
      (rows : List Value)
      → get_elem? s.buffer_entry_to_stack_table n ≡ some j
      → RowsOf s (n + 1) es rows
      → RowsOf s n
          (e ∷ es)
          (sample_row J j (as_millis (duration_since e.created_at s.profiler_start)) ∷ rows)
  RowsOf-cons s n j e es rows at rest zero j' e' here here' =
      let index : n ≡ n + 0 = omega arith in
      let same : j ≡ j' =
        eq_of_some (sym at ∙ (ap (get_elem? s.buffer_entry_to_stack_table) index ∙ here')) in
      cc (eq_of_some here)
  RowsOf-cons s n j e es rows at rest (suc k) j' e' here here' =
      let index : n + 1 + k ≡ n + suc k = omega arith in
      rest k j' e' here (ap (get_elem? s.buffer_entry_to_stack_table) index ∙ here')

  -- The rows of entries from the `n`-th on.
  sample_rows-ok :
      (s : SamplesSerializer) (n : ℕ) (es : List (BufferEntry Sample))
      → length s.buffer_entry_to_stack_table ≡ n + length es
      → (rows : List Value) × (sample_rows J s (enumerate n es) ≡ ok rows)
        × (length rows ≡ length es)
        × RowsOf s n es rows
  unfolding sample_rows
  sample_rows-ok s n [] h = ([], refl, refl, λ k j e at. absurd (none-ne-some at))
  sample_rows-ok s n (e ∷ es) h =
      let (j, at) = get_elem?-some s.buffer_entry_to_stack_table n (omega arith) in
      let (rows, run, len, each) = sample_rows-ok s (n + 1) es (omega arith) in
      let first = sample_row J j (as_millis (duration_since e.created_at s.profiler_start)) in
      (
        first ∷ rows,
        rw (at, sample_rows) (ap (λ m. m >>= λ rs. ok (first ∷ rs)) run),
        ap suc len,
        RowsOf-cons s n j e es rows at each,
      )

  -- For a serializer that `new` returned for a thread, `serialize_samples` of that thread does not
  -- panic. It writes one row for each sample, in order: the sample's index in the stack table, the
  -- milliseconds from the start of the profiler to the sample, and 0.
  pub serialize_samples-new :
      (at : ℕ) (buffer : TimeExpiringBuffer Sample) (tid : ℕ) (s : SamplesSerializer)
      → new at buffer tid ≡ ok s
      → (rows : List Value) × (serialize_samples J s tid ≡ ok (samples_table J rows))
        × (length rows ≡ length (iter_thread buffer tid))
        × ((k j : ℕ) (e : BufferEntry Sample)
            → get_elem? (iter_thread buffer tid) k ≡ some e
            → get_elem? s.buffer_entry_to_stack_table k ≡ some j
            → get_elem? rows k ≡ some (sample_row J j (as_millis (duration_since e.created_at at))))
  unfolding serialize_samples
  serialize_samples-new at buffer tid s run =
      let (_, _, buffer', at') = new_ok at buffer tid s run in
      let same : iter_thread s.buffer tid ≡ iter_thread buffer tid =
        ap (λ b. iter_thread b tid) buffer' in
      let (rows, run', len, each) =
        sample_rows-ok s 0 (iter_thread s.buffer tid)
          (omega (arith, (new_indices at buffer tid s run).0, ap length same)) in
      (
        rows,
        rw (run', serialize_samples),
        len ∙ ap length same,
        λ k j e here here'.
            let index : k ≡ 0 + k = omega arith in
            each k j e (ap (λ l. get_elem? l k) same ∙ here)
              (ap (get_elem? s.buffer_entry_to_stack_table) (sym index) ∙ here')
            ∙ ap (λ t. some (sample_row J j (as_millis (duration_since e.created_at t)))) at',
      )

  -- The row of each entry has a location that resolves to the text of the entry's address.
  abbrev pub FrameRowsOf : StackTable → List Value → StringTable → Type 0
  FrameRowsOf table rows t =
      (k : ℕ) (e : StackForSerialization)
      → get_elem? table k ≡ some e
      → (location : ℕ) × (get_elem? rows k ≡ some (frame_row J location))
        × (get_elem? t.strings location ≡ some (Address.as_string e.instruction_ptr))

  FrameRowsOf-cons :
      (e : StackForSerialization) (table : StackTable) (location : ℕ) (rows : List Value)
      (t : StringTable)
      → get_elem? t.strings location ≡ some (Address.as_string e.instruction_ptr)
      → FrameRowsOf table rows t
      → FrameRowsOf (e ∷ table) (frame_row J location ∷ rows) t
  FrameRowsOf-cons e table location rows t here rest zero e' at =
      (location, refl, here ∙ ap (λ x. some (Address.as_string x.instruction_ptr)) (eq_of_some at))
  FrameRowsOf-cons e table location rows t here rest (suc k) e' at = rest k e' at

  frame_rows-resolve :
      (table : StackTable) (t : StringTable)
      → IsConsistent t
      → IsConsistent (frame_rows J table t).1
        × (length (frame_rows J table t).0 ≡ length table)
        × ((i : ℕ) (r : String)
            → get_elem? t.strings i ≡ some r
            → get_elem? (frame_rows J table t).1.strings i ≡ some r)
        × FrameRowsOf table (frame_rows J table t).0 (frame_rows J table t).1
  unfolding frame_rows
  frame_rows-resolve [] t c = (c, refl, λ i r h. h, λ k e at. absurd (none-ne-some at))
  frame_rows-resolve (e ∷ table) t c =
      let text = Address.as_string e.instruction_ptr in
      let (first, kept) = take_string-resolves t text c in
      let (rows, t') = frame_rows J table (take_string t text).1 in
      let (c', len, later, each) =
        frame_rows-resolve table (take_string t text).1 (take_string-IsConsistent t text c) in
      (
        c',
        ap suc len,
        λ i r h. later i r (kept i r h),
        FrameRowsOf-cons e table (take_string t text).0 rows t' (later _ text first) each,
      )

  -- `serialize_frame_table` writes one row for each entry of the stack table, in order, whose
  -- location is the index in the string table of the text of the entry's address. Indices that the
  -- string table had before keep their texts.
  pub serialize_frame_table-resolves :
      (s : SamplesSerializer) (t : StringTable)
      → IsConsistent t
      → (rows : List Value) × (t' : StringTable) × (serialize_frame_table J s t
          ≡ (frames_table J rows, t'))
        × (length rows ≡ length s.stack_table)
        × FrameRowsOf s.stack_table rows t'
        × ((i : ℕ) (r : String) → get_elem? t.strings i ≡ some r → get_elem? t'.strings i ≡ some r)
        × IsConsistent t'
  unfolding serialize_frame_table
  serialize_frame_table-resolves s t c =
      let (c', len, later, each) = frame_rows-resolve s.stack_table t c in
      (
        (frame_rows J s.stack_table t).0,
        (frame_rows J s.stack_table t).1,
        refl,
        len,
        each,
        later,
        c',
      )
