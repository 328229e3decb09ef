-- ===== src/Markers/Names.antt =====
-- The markers of src/markers.rs and the string table that their serialization fills.
use profiler_rs.Json.{Json}
use profiler_rs.Markers.{
  Marker, StaticStringMarker, marker_row, static_string_marker, marker_rows, markers_table,
  serialize_markers_in_buffer,
}
use profiler_rs.Prelude.{
  ℕ, zero, suc, ◌≡◌, refl, List, [], ◌∷◌, some, String, length, get_elem?, All, ap, ◌∙◌,
  none-ne-some, eq_of_some,
}
use profiler_rs.SamplesSerializer.Tables.{as_millis}
use profiler_rs.StringTable.{StringTable, get_index}
use profiler_rs.StringTable.Interning.{IsConsistent, get_index-IsConsistent, get_index-resolves}
use profiler_rs.TimeExpiringBuffer.{TimeExpiringBuffer, BufferEntry, duration_since, iter_thread}

-- Every index of the first table resolves to the same text in the second.
abbrev pub Keeps : StringTable → StringTable → Type 0
Keeps t t' = (i : ℕ) (r : String) → get_elem? t.strings i ≡ some r → get_elem? t'.strings i ≡ some r

module _ (J : Json) where
  open J use {Value}

  -- What the program asks of a marker: it uses the string table by interning alone.
  pub record IsInterning (m : Marker J) : Type 0 where
    pub consistent :
        (thread_start created_at : ℕ) (t : StringTable)
        → IsConsistent t
        → IsConsistent (m.serialize thread_start created_at t).1
    pub keeps :
        (thread_start created_at : ℕ) (t : StringTable)
        → IsConsistent t
        → Keeps t (m.serialize thread_start created_at t).1

  pub static_string_marker-IsInterning :
      (m : StaticStringMarker) → IsInterning (static_string_marker J m)
  unfolding static_string_marker
  static_string_marker-IsInterning m = record {
    consistent = λ thread_start created_at t. get_index-IsConsistent t m.string;
    keeps = λ thread_start created_at t c. (get_index-resolves t m.string c).1;
  }

  -- The row of each static string marker has its text, by the table's index, and its time.
  abbrev pub MarkerRowsOf :
      (thread_start : ℕ) → List (BufferEntry (Marker J)) → List Value → StringTable → Type 0
  MarkerRowsOf thread_start es rows t =
      (k : ℕ) (e : BufferEntry (Marker J)) (m : StaticStringMarker)
      → get_elem? es k ≡ some e
      → e.value ≡ static_string_marker J m
      → (name : ℕ) × (get_elem? rows k
          ≡ some (marker_row J name (as_millis (duration_since e.created_at thread_start))))
        × (get_elem? t.strings name ≡ some m.string)

  static_string_row :
      (thread_start created_at : ℕ) (m : StaticStringMarker) (t : StringTable)
      → IsConsistent t
      → (name : ℕ) × ((static_string_marker J m).serialize thread_start created_at t ≡ (
        marker_row J name (as_millis (duration_since created_at thread_start)),
        (get_index t m.string).1,
      ))
        × (get_elem? (get_index t m.string).1.strings name ≡ some m.string)
  unfolding static_string_marker
  static_string_row thread_start created_at m t c =
      ((get_index t m.string).0, refl, (get_index-resolves t m.string c).0)

  first_row :
      (thread_start : ℕ) (e : BufferEntry (Marker J)) (m : StaticStringMarker) (t u : StringTable)
      → IsConsistent t
      → Keeps (e.value.serialize thread_start e.created_at t).1 u
      → e.value ≡ static_string_marker J m
      → (name : ℕ) × (some (e.value.serialize thread_start e.created_at t).0
          ≡ some (marker_row J name (as_millis (duration_since e.created_at thread_start))))
        × (get_elem? u.strings name ≡ some m.string)
  first_row thread_start e m t u c keeps is =
      let (name, run, at) = static_string_row thread_start e.created_at m t c in
      let same = ap (λ v. v.serialize thread_start e.created_at t) is ∙ run in
      (
        name,
        ap (λ p. some p.0) same,
        keeps name m.string (ap (λ p. get_elem? p.1.strings name) same ∙ at),
      )

  MarkerRowsOf-cons :
      (thread_start : ℕ) (e : BufferEntry (Marker J)) (es : List (BufferEntry (Marker J)))
      (rows : List Value) (t u : StringTable)
      → IsConsistent t
      → Keeps (e.value.serialize thread_start e.created_at t).1 u
      → MarkerRowsOf thread_start es rows u
      → MarkerRowsOf thread_start
          (e ∷ es)
          ((e.value.serialize thread_start e.created_at t).0 ∷ rows)
          u
  MarkerRowsOf-cons thread_start e es rows t u c kept each zero e' m at is =
      let same = eq_of_some at in
      let (name, row, resolves) =
        first_row thread_start e m t u c kept (ap (λ x. x.value) same ∙ is) in
      (
        name,
        row
            ∙ ap
                (λ x.
                  some (marker_row J name (as_millis (duration_since x.created_at thread_start))))
                same,
        resolves,
      )
  MarkerRowsOf-cons thread_start e es rows t u c kept each (suc k) e' m at is = each k e' m at is

  pub marker_rows-resolve :
      (thread_start : ℕ) (es : List (BufferEntry (Marker J))) (t : StringTable)
      → All (λ e. IsInterning e.value) es
      → IsConsistent t
      → IsConsistent (marker_rows J thread_start es t).1
        × (length (marker_rows J thread_start es t).0 ≡ length es)
        × Keeps t (marker_rows J thread_start es t).1
        × MarkerRowsOf thread_start es
            (marker_rows J thread_start es t).0
            (marker_rows J thread_start es t).1
  unfolding marker_rows
  marker_rows-resolve thread_start [] t good c =
      (c, refl, λ i r h. h, λ k e m at. absurd (none-ne-some at))
  marker_rows-resolve thread_start (e ∷ es) t good c =
      let t' = (e.value.serialize thread_start e.created_at t).1 in
      let c' = good.0.consistent thread_start e.created_at t c in
      let (c'', len, kept, each) = marker_rows-resolve thread_start es t' good.1 c' in
      (
        c'',
        ap suc len,
        λ i r h. kept i r (good.0.keeps thread_start e.created_at t c i r h),
        MarkerRowsOf-cons thread_start e es _ t (marker_rows J thread_start es t').1 c kept each,
      )

  -- When the markers of a thread use the string table by interning alone, the table of its markers
  -- has one row for each of them, in order; the row of a static string marker has the index of its
  -- text in the string table and its time; and indices that the string table had keep their texts.
  pub serialize_markers_in_buffer-resolves :
      (buffer : TimeExpiringBuffer (Marker J)) (thread_start tid : ℕ) (t : StringTable)
      → All (λ e. IsInterning e.value) (iter_thread buffer tid)
      → IsConsistent t
      → (rows : List Value) × (t' : StringTable) × (serialize_markers_in_buffer J buffer
            thread_start t tid
          ≡ (markers_table J rows, t'))
        × (length rows ≡ length (iter_thread buffer tid))
        × MarkerRowsOf thread_start (iter_thread buffer tid) rows t'
        × Keeps t t'
        × IsConsistent t'
  unfolding serialize_markers_in_buffer
  serialize_markers_in_buffer-resolves buffer thread_start tid t good c =
      let (c', len, kept, each) =
        marker_rows-resolve thread_start (iter_thread buffer tid) t good c in
      (
        (marker_rows J thread_start (iter_thread buffer tid) t).0,
        (marker_rows J thread_start (iter_thread buffer tid) t).1,
        refl,
        len,
        each,
        kept,
        c',
      )
