-- ===== src/Extraction/Rows.antt =====
-- What the helpers of the tests in src/core.rs make of the table of a thread's static string markers.
use profiler_rs.BufferThread.{ThreadInfo, profile}
use profiler_rs.BufferThread.Strings.{object_with}
use profiler_rs.Extraction.{JsonMap, zero_times, set_time_values_to_zero, extract_marker_json}
use profiler_rs.Json.{Json}
use profiler_rs.Markers.{
  Marker, StaticStringMarker, marker_row, static_string_marker, markers_table,
}
use profiler_rs.Markers.Names.{MarkerRowsOf}
use profiler_rs.Prelude.{
  ℕ, suc, ◌≡◌, refl, List, [], ◌∷◌, some, arith, length, map, get_elem?, eq_of_some, String, ap,
  ◌∙◌,
}
use profiler_rs.SamplesSerializer.{SamplesSerializer}
use profiler_rs.SamplesSerializer.Tables.{serialize_stack_table}
use profiler_rs.StringTable
use profiler_rs.StringTable.RoundTrip.{from_json-serialize}
use profiler_rs.StringTable.{StringTable, get_index}
use profiler_rs.StringTable.Interning.{IsConsistent, get_index-known}
use profiler_rs.TimeExpiringBuffer.{BufferEntry}

module _ (J : Json) where
  open J use {Value, number, array, object}

  -- The entry of a static string marker.
  abbrev pub static_entry : BufferEntry StaticStringMarker → BufferEntry (Marker J)
  static_entry e = record {
    tid = e.tid;
    created_at = e.created_at;
    value = static_string_marker J e.value;
  }

  -- `[string_table.get_index(..), 0, 0]` for each marker, as the test `can_create_and_store_markers`
  -- expects it.
  abbrev pub expected_rows : StringTable → List (BufferEntry StaticStringMarker) → List Value
  expected_rows t ms = map (λ e. marker_row J (get_index t e.value.string).0 0) ms

  -- The rows have these names, at some times.
  abbrev pub AreRows : StringTable → List (BufferEntry StaticStringMarker) → List Value → Type 0
  AreRows t [] [] = Unit
  AreRows t [] (_ ∷ _) = ⊥
  AreRows t (_ ∷ _) [] = ⊥
  AreRows t (e ∷ ms) (row ∷ rows) =
      ((name time : ℕ) × (row ≡ marker_row J name time)
        × (get_elem? t.strings name ≡ some e.value.string))
      × AreRows t ms rows

  pub MarkerRowsOf-AreRows :
      (start : ℕ) (t : StringTable) (ms : List (BufferEntry StaticStringMarker)) (rows : List Value)
      → length rows ≡ length (map static_entry ms)
      → MarkerRowsOf J start (map static_entry ms) rows t
      → AreRows t ms rows
  MarkerRowsOf-AreRows start t [] [] len each = tt
  MarkerRowsOf-AreRows start t [] (_ ∷ _) len each = absurd (omega arith)
  MarkerRowsOf-AreRows start t (e ∷ ms) [] len each = absurd (omega arith)
  MarkerRowsOf-AreRows start t (e ∷ ms) (row ∷ rows) len each =
      let (name, is, at) = each 0 (static_entry e) e.value refl refl in
      (
        (name, _, eq_of_some is, at),
        MarkerRowsOf-AreRows start t ms rows (omega arith) (λ k. each (suc k)),
      )

  AreRows-strings :
      (t t' : StringTable) (ms : List (BufferEntry StaticStringMarker)) (rows : List Value)
      → t'.strings ≡ t.strings
      → AreRows t ms rows
      → AreRows t' ms rows
  AreRows-strings t t' [] [] e each = tt
  AreRows-strings t t' [] (_ ∷ _) e each = absurd each
  AreRows-strings t t' (_ ∷ _) [] e each = absurd each
  AreRows-strings t t' (m ∷ ms) (row ∷ rows) e ((name, time, is, at), each) =
      ((name, time, is, ap (λ l. get_elem? l name) e ∙ at), AreRows-strings t t' ms rows e each)

  -- The members of the table of markers.
  abbrev schema_members : List (String × Value)
  schema_members =
      ("name", number 0) ∷ ("time", number 1) ∷ ("category", number 2) ∷ ("data", number 3) ∷ []

  abbrev table_members : List Value → List (String × Value)
  table_members rows = ("schema", object schema_members) ∷ ("data", array rows) ∷ []

  module _ (M : JsonMap J) where
    zero_times-expected_rows :
        (t : StringTable) (ms : List (BufferEntry StaticStringMarker)) (rows : List Value)
        → IsConsistent t
        → AreRows t ms rows
        → zero_times J M 1 rows ≡ some (expected_rows t ms)
    unfolding zero_times marker_row
    zero_times-expected_rows t [] [] c each = refl
    zero_times-expected_rows t [] (_ ∷ _) c each = absurd each
    zero_times-expected_rows t (_ ∷ _) [] c each = absurd each
    zero_times-expected_rows t (e ∷ ms) (row ∷ rows) c ((name, time, is, at), each) =
        let known = get_index-known t e.value.string name c at in
        rw
          (
            is,
            J.as_array-array,
            zero_times-expected_rows t ms rows c each,
            M.is_number-number time,
            known,
          )
          refl

    set_time_values_to_zero-rows :
        (t : StringTable) (ms : List (BufferEntry StaticStringMarker)) (rows : List Value)
        → IsConsistent t
        → AreRows t ms rows
        → set_time_values_to_zero J M (M.map_of (table_members rows))
          ≡ some (M.map_of (table_members (expected_rows t ms)))
    unfolding set_time_values_to_zero
    set_time_values_to_zero-rows t ms rows c each =
        rw
          (
            M.get-map_of "schema" (object schema_members) [] (("data", array rows) ∷ []) (refl, tt),
            M.as_object-object schema_members,
            M.get-map_of "time" (number 1) (("name", number 0) ∷ [])
                (("category", number 2) ∷ ("data", number 3) ∷ []) (refl, (refl, tt)),
            M.as_u64-number 1 (omega arith),
            M.get-map_of "data" (array rows) (("schema", object schema_members) ∷ []) [] tt,
            J.as_array-array rows,
            zero_times-expected_rows t ms rows c each,
            M.assign-map_of "data" (array rows) (array (expected_rows t ms))
                (("schema", object schema_members) ∷ []) [] tt,
          )
          refl

    -- From a profile that has the object of a thread at this place.
    pub extract_marker_json-profile :
        (interval k pid : ℕ) (threads rows : List Value) (info : ThreadInfo) (s : SamplesSerializer)
        (samples frames : Value) (t : StringTable) (ms : List (BufferEntry StaticStringMarker))
        → get_elem? threads k
          ≡ some (object_with J pid info s (markers_table J rows) samples frames t)
        → IsConsistent t
        → AreRows t ms rows
        → (t' : StringTable) × (extract_marker_json J M (profile J interval threads) k
            ≡ some (t', markers_table J (expected_rows t' ms)))
          × (t'.strings ≡ t.strings)
    unfolding extract_marker_json markers_table profile
    extract_marker_json-profile interval k pid threads rows info s samples frames t ms at c each =
        let (vs, t', read, rebuilt, strings, _, c') = from_json-serialize J t c in
        let each' = AreRows-strings t t' ms rows strings each in
        (
          t',
          rw
              (
                M.as_object-object,
                M.get-map_of "threads" (array threads)
                    (("meta", _)
                      ∷ ("libs", array [])
                      ∷ ("pausedRanges", array [])
                      ∷ ("processes", array [])
                      ∷ [])
                    [] tt,
                J.as_array-array,
                at,
                M.as_object-object,
                M.get-map_of "markers" (markers_table J rows)
                    (("registerTime", number 0)
                      ∷ ("unregisterTime", J.null)
                      ∷ ("name", J.string info.name)
                      ∷ ("processType", J.string "default")
                      ∷ ("tid", number info.id)
                      ∷ ("pid", number pid)
                      ∷ [])
                    (("samples", samples)
                      ∷ ("stackTable", serialize_stack_table J s)
                      ∷ ("frameTable", frames)
                      ∷ ("stringTable", StringTable.serialize J t)
                      ∷ [])
                    (refl, (refl, (refl, (refl, tt)))),
                M.as_object-object,
                set_time_values_to_zero-rows t' ms rows c' each',
                M.get-map_of "stringTable" (StringTable.serialize J t)
                    (("registerTime", number 0)
                      ∷ ("unregisterTime", J.null)
                      ∷ ("name", J.string info.name)
                      ∷ ("processType", J.string "default")
                      ∷ ("tid", number info.id)
                      ∷ ("pid", number pid)
                      ∷ ("markers", markers_table J rows)
                      ∷ ("samples", samples)
                      ∷ ("stackTable", serialize_stack_table J s)
                      ∷ ("frameTable", frames)
                      ∷ [])
                    [] tt,
                read,
                rebuilt,
                M.to_value-map_of,
              )
              refl,
          strings,
        )
