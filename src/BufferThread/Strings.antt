-- ===== src/BufferThread/Strings.antt =====
-- The string table of a thread in the profile of src/buffer_thread.rs, which the thread's markers and
-- frames share.
use profiler_rs.BufferThread.{ThreadInfo, BufferThread, thread_object, thread_value}
use profiler_rs.Json.{Json}
use profiler_rs.Markers.{markers_table}
use profiler_rs.Markers.Names.{IsInterning, MarkerRowsOf, serialize_markers_in_buffer-resolves}
use profiler_rs.Prelude.{ℕ, ◌≡◌, List, [], ◌∷◌, ok, >>=-eq-ok, length, All, ap, sym, ◌∙◌}
use profiler_rs.SamplesSerializer
use profiler_rs.SamplesSerializer.{SamplesSerializer}
use profiler_rs.SamplesSerializer.Tables.{
  serialize_samples, serialize_stack_table, frames_table, serialize_frame_table,
}
use profiler_rs.SamplesSerializer.Tables.Rows.{FrameRowsOf, serialize_frame_table-resolves}
use profiler_rs.StringTable
use profiler_rs.StringTable.{StringTable}
use profiler_rs.StringTable.Interning.{IsConsistent, new-IsConsistent}
use profiler_rs.TimeExpiringBuffer.{iter_thread}

module _ (J : Json) where
  open J use {Value, null, number, string, object}

  -- The object of a thread with these tables.
  abbrev pub object_with :
      (pid : ℕ)
      → ThreadInfo
      → SamplesSerializer
      → (markers samples frames : Value) → StringTable
      → Value
  object_with pid info s markers samples frames t = object (
      ("registerTime", number 0)
      ∷ ("unregisterTime", null)
      ∷ ("name", string info.name)
      ∷ ("processType", string "default")
      ∷ ("tid", number info.id)
      ∷ ("pid", number pid)
      ∷ ("markers", markers)
      ∷ ("samples", samples)
      ∷ ("stackTable", serialize_stack_table J s)
      ∷ ("frameTable", frames)
      ∷ ("stringTable", StringTable.serialize J t)
      ∷ [])

  -- The tables resolve through the string table that is written with them.
  pub record Linked (start : ℕ) (b : BufferThread J) (info : ThreadInfo) (s : SamplesSerializer)
      (markers frames : List Value) (t : StringTable) : Type 0 where
    pub marker_count : length markers ≡ length (iter_thread b.markers info.id)
    pub marker_names : MarkerRowsOf J start (iter_thread b.markers info.id) markers t
    pub frame_locations : FrameRowsOf J s.stack_table frames t
    pub consistent : IsConsistent t

  thread_object-resolves :
      (pid start : ℕ) (b : BufferThread J) (info : ThreadInfo) (s : SamplesSerializer)
      (samples : Value)
      → All (λ e. IsInterning J e.value) (iter_thread b.markers info.id)
      → (markers frames : List Value) × (t : StringTable) × (thread_object J pid b start info s
            samples
          ≡ object_with pid info s (markers_table J markers) samples (frames_table J frames) t)
        × Linked start b info s markers frames t
  unfolding thread_object
  thread_object-resolves pid start b info s samples good =
      let (markers, t, run, len, names, _, c) =
        serialize_markers_in_buffer-resolves J b.markers start info.id StringTable.new good
          new-IsConsistent in
      let (frames, t', run', _, locations, kept, c') = serialize_frame_table-resolves J s t c in
      (
        markers,
        frames,
        t',
        ap
              (λ p.
                object_with pid info s p.0 samples (serialize_frame_table J s p.1).0
                  (serialize_frame_table J s p.1).1)
              run
            ∙ ap (λ q. object_with pid info s (markers_table J markers) samples q.0 q.1) run',
        record {
          marker_count = len;
          marker_names = λ k e m at is.
              let (name, row, resolved) = names k e m at is in
              (name, row, kept name m.string resolved);
          frame_locations = locations;
          consistent = c';
        },
      )

  -- When the markers of a thread use the string table by interning alone, and the thread's value is
  -- made without a panic, that value is an object whose markers and frames resolve through the string
  -- table in the same object: the name of each static string marker to its text, and the location
  -- of each frame to the text of its address.
  pub thread_value-Linked :
      (pid start : ℕ) (b : BufferThread J) (info : ThreadInfo) (v : Value)
      → All (λ e. IsInterning J e.value) (iter_thread b.markers info.id)
      → thread_value J pid b start info ≡ ok v
      → (s : SamplesSerializer) × (samples : Value) × (markers frames : List Value)
        × (t : StringTable) × (SamplesSerializer.new start b.samples info.id ≡ ok s)
        × (serialize_samples J s info.id ≡ ok samples)
        × (v ≡ object_with pid info s (markers_table J markers) samples (frames_table J frames) t)
        × Linked start b info s markers frames t
  unfolding thread_value
  thread_value-Linked pid start b info v good e =
      let (s, built, e') = >>=-eq-ok (SamplesSerializer.new start b.samples info.id) _ e in
      let (samples, written, e'') = >>=-eq-ok (serialize_samples J s info.id) _ e' in
      let (markers, frames, t, shape, resolves) =
        thread_object-resolves pid start b info s samples good in
      let is : thread_object J pid b start info s samples ≡ v = cc in
      (s, samples, markers, frames, t, built, written, sym is ∙ shape, resolves)
