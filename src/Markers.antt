-- ===== src/Markers.antt =====
-- src/markers.rs: the trait `Marker`, its one implementation, and the JSON of a thread's markers.
pub mod Names
use profiler_rs.Json.{Json}
use profiler_rs.Prelude.{ℕ, List, [], ◌∷◌, String}
use profiler_rs.SamplesSerializer.Tables.{as_millis}
use profiler_rs.StringTable.{StringTable, get_index}
use profiler_rs.TimeExpiringBuffer.{TimeExpiringBuffer, BufferEntry, duration_since, iter_thread}

-- `Box<dyn Marker>`: the value that is written, and the string table after the call.
pub record Marker (J : Json) : Type 0 where
  pub serialize : (thread_start created_at : ℕ) → StringTable → J.Value × StringTable

pub record StaticStringMarker : Type 0 where
  pub string : String

module _ (J : Json) where
  open J use {Value, number, array, object}

  -- The row of a marker with a name's index and a time.
  unfoldable pub marker_row : (name time : ℕ) → Value
  marker_row name time = array (number name ∷ number time ∷ number 0 ∷ [])

  -- `impl Marker for StaticStringMarker`.
  pub static_string_marker : StaticStringMarker → Marker J
  static_string_marker m = record {
    serialize = λ thread_start created_at t.
        let (name, t') = get_index t m.string in
        (marker_row name (as_millis (duration_since created_at thread_start)), t');
  }

  -- The rows, one marker after the other, and the string table after the last.
  pub marker_rows :
      (thread_start : ℕ) → List (BufferEntry (Marker J)) → StringTable → List Value × StringTable
  marker_rows thread_start [] t = ([], t)
  marker_rows thread_start (entry ∷ rest) t =
      let (row, t') = entry.value.serialize thread_start entry.created_at t in
      let (rows, t'') = marker_rows thread_start rest t' in (row ∷ rows, t'')

  unfoldable pub markers_table : List Value → Value
  markers_table rows = object (
      (
        "schema",
        object (
            ("name", number 0)
            ∷ ("time", number 1)
            ∷ ("category", number 2)
            ∷ ("data", number 3)
            ∷ []),
      )
      ∷ ("data", array rows)
      ∷ [])

  pub serialize_markers_in_buffer :
      TimeExpiringBuffer (Marker J)
      → (thread_start : ℕ) → StringTable
      → (tid : ℕ) → Value × StringTable
  serialize_markers_in_buffer buffer thread_start t tid =
      let (rows, t') = marker_rows thread_start (iter_thread buffer tid) t in
      (markers_table rows, t')
