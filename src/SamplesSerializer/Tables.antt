-- ===== src/SamplesSerializer/Tables.antt =====
-- The tables that `SamplesSerializer` of src/sampler.rs writes as JSON.
pub mod Rows
use profiler_rs.Address
use profiler_rs.Json.{Json}
use profiler_rs.Prelude.{
  ℕ, ◌/◌, ◌%◌, ◌^◌, List, [], ◌∷◌, false, Option, none, some, Result, ok, err, ◌>>=◌, map,
  enumerate, get_elem?,
}
use profiler_rs.SamplesSerializer.{
  Sample, StackForSerialization, StackTable, Fault, panicked, SamplesSerializer,
}
use profiler_rs.StringTable.{StringTable, take_string}
use profiler_rs.TimeExpiringBuffer.{BufferEntry, duration_since, iter_thread}

-- `Duration::as_millis` of nanoseconds, cast to a `u64`.
abbrev pub as_millis : ℕ → ℕ
as_millis d = d / 1_000_000 % 2 ^ 64

module _ (J : Json) where
  open J use {Value, null, bool, number, string, array, object}

  -- The value of the `prefix` column.
  prefix_value : Option ℕ → Value
  prefix_value (some value) = number value
  prefix_value none = null

  pub stack_row : ℕ × StackForSerialization → Value
  unfolding prefix_value
  stack_row (index, stack) = array (prefix_value stack.prefix ∷ number index ∷ [])

  pub serialize_stack_table : SamplesSerializer → Value
  serialize_stack_table s = object (
      ("schema", object (("prefix", number 0) ∷ ("frame", number 1) ∷ []))
      ∷ ("data", array (map stack_row (enumerate 0 s.stack_table)))
      ∷ [])

  pub sample_row : (stack time : ℕ) → Value
  sample_row stack time = array (number stack ∷ number time ∷ number 0 ∷ [])

  -- The rows of the samples; a sample that has no index is a panic of `expect`.
  pub sample_rows : SamplesSerializer → List (ℕ × BufferEntry Sample) → Result (List Value) Fault
  sample_rows s [] = ok []
  sample_rows s ((index, entry) ∷ rest) = elim (get_elem? s.buffer_entry_to_stack_table index) [
    | none ↦ err panicked
    | some stack ↦ sample_rows s rest >>= λ rows.
        ok (sample_row stack (as_millis (duration_since entry.created_at s.profiler_start)) ∷ rows)
  ]

  pub samples_table : List Value → Value
  samples_table rows = object (
      (
        "schema",
        object (("stack", number 0) ∷ ("time", number 1) ∷ ("responsiveness", number 2) ∷ []),
      )
      ∷ ("data", array rows)
      ∷ [])

  pub serialize_samples : SamplesSerializer → (tid : ℕ) → Result Value Fault
  serialize_samples s tid = do
    rows ← sample_rows s (enumerate 0 (iter_thread s.buffer tid))
    ok (samples_table rows)

  pub frame_row : (location : ℕ) → Value
  frame_row location =
      array (number location ∷ bool false ∷ null ∷ null ∷ null ∷ null ∷ number 0 ∷ null ∷ [])

  -- The rows, and the string table after the texts of the addresses were put in.
  pub frame_rows : StackTable → StringTable → List Value × StringTable
  frame_rows [] t = ([], t)
  frame_rows (stack ∷ rest) t =
      let (location, t') = take_string t (Address.as_string stack.instruction_ptr) in
      let (rows, t'') = frame_rows rest t' in (frame_row location ∷ rows, t'')

  pub frames_table : List Value → Value
  frames_table rows = object (
      (
        "schema",
        object (
            ("location", number 0)
            ∷ ("relevantForJS", number 1)
            ∷ ("innerWindowID", number 2)
            ∷ ("implementation", number 3)
            ∷ ("line", number 4)
            ∷ ("column", number 5)
            ∷ ("category", number 6)
            ∷ ("subcategory", number 7)
            ∷ []),
      )
      ∷ ("data", array rows)
      ∷ [])

  pub serialize_frame_table : SamplesSerializer → StringTable → Value × StringTable
  serialize_frame_table s t = let (rows, t') = frame_rows s.stack_table t in (frames_table rows, t')
