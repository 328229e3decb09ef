-- ===== src/BufferThread/Profiles.antt =====
-- The profile that src/buffer_thread.rs writes, from the messages that the thread was sent.
use profiler_rs.BufferThread.{
  ThreadInfo, CoreInfoForSerialization, SerializationMessage, BufferThread, new, thread_value,
  thread_values, profile, serialize_buffer_value, Delivery, run,
}
use profiler_rs.BufferThread.Contents.{IsInOrder, marker_calls, sample_calls, run-contents}
use profiler_rs.BufferThread.Serializing.{IsSerializable, thread_value-ok}
use profiler_rs.BufferThread.Strings.{object_with, thread_value-Linked}
use profiler_rs.Json.{Json}
use profiler_rs.Markers.{Marker, markers_table}
use profiler_rs.Markers.Names.{IsInterning, MarkerRowsOf}
use profiler_rs.Prelude.{
  ℕ, ◌≡◌, refl, List, [], ◌∷◌, ok, All, keep, ◌==◌, length, ap, sym, ◌∙◌, subst, get_elem?, some,
  All-keep, not, ltb, ◌-◌,
}
use profiler_rs.SamplesSerializer
use profiler_rs.SamplesSerializer.{Sample, SamplesSerializer, Fault}
use profiler_rs.SamplesSerializer.Outcome.{FirstHasFrame}
use profiler_rs.SamplesSerializer.Tables.{samples_table, sample_row, as_millis, frames_table}
use profiler_rs.SamplesSerializer.Tables.Rows.{FrameRowsOf, serialize_samples-new}
use profiler_rs.StringTable.{StringTable}
use profiler_rs.StringTable.Interning.{IsConsistent}
use profiler_rs.TimeExpiringBuffer.{BufferEntry, TimeExpiringBuffer, duration_since, iter_thread}
use profiler_rs.TimeExpiringBuffer.Expiry.{fresh}
use profiler_rs.TimeExpiringBuffer.History.{pushed, last_expiry}

-- The entries of a thread.
abbrev pub of_thread {ℓ} : {A : Type ℓ} → ℕ → List (BufferEntry A) → List (BufferEntry A)
of_thread tid es = keep (λ e. e.tid == tid) es

-- A relation between the items of two lists, place by place.
abbrev pub Each {ℓ κ} : {A : Type ℓ} {B : Type κ} → (A → B → Type 0) → List A → List B → Type 0
Each R [] [] = Unit
Each R [] (_ ∷ _) = ⊥
Each R (_ ∷ _) [] = ⊥
Each R (x ∷ xs) (y ∷ ys) = R x y × Each R xs ys

module _ (J : Json) where
  open J use {Value}

  -- The object of a thread that had these markers and samples: a row for each, in order; the names of
  -- static string markers and the locations of frames by the string table; and for a sample its index
  -- in the stack table that `SamplesSerializer::new` builds of the samples, and its time.
  pub record IsThreadProfile (pid start : ℕ) (marker_log : List (BufferEntry (Marker J)))
      (sample_log : List (BufferEntry Sample)) (info : ThreadInfo) (v : Value) : Type 0 where
    pub tables : SamplesSerializer
    pub buffer : TimeExpiringBuffer Sample
    pub markers : List Value
    pub samples : List Value
    pub frames : List Value
    pub strings : StringTable
    pub built :
        (iter_thread buffer info.id ≡ sample_log)
        × (SamplesSerializer.new start buffer info.id ≡ ok tables)
    pub shape :
        v
        ≡ object_with J pid info tables
            (markers_table J markers)
            (samples_table J samples)
            (frames_table J frames)
            strings
    pub marker_count : length markers ≡ length marker_log
    pub marker_names : MarkerRowsOf J start marker_log markers strings
    pub frame_locations : FrameRowsOf J tables.stack_table frames strings
    pub consistent : IsConsistent strings
    pub sample_count : length samples ≡ length sample_log
    pub sample_rows :
        (k j : ℕ) (e : BufferEntry Sample)
        → get_elem? sample_log k ≡ some e
        → get_elem? tables.buffer_entry_to_stack_table k ≡ some j
        → get_elem? samples k
          ≡ some (sample_row J j (as_millis (duration_since e.created_at start)))

  thread_value-IsThreadProfile :
      (pid start : ℕ) (b : BufferThread J) (info : ThreadInfo)
      → All (λ e. IsInterning J e.value) (iter_thread b.markers info.id)
      → IsSerializable J b info
      → (v : Value) × (thread_value J pid b start info ≡ ok v)
        × IsThreadProfile pid start
            (iter_thread b.markers info.id)
            (iter_thread b.samples info.id)
            info
            v
  thread_value-IsThreadProfile pid start b info good first =
      let (v, run) = thread_value-ok J pid start b info first in
      let (s, samples, markers, frames, t, built, written, shape, linked) =
        thread_value-Linked J pid start b info v good run in
      let (rows, written', count, each) = serialize_samples-new J start b.samples info.id s built in
      let same : samples ≡ samples_table J rows = cc in
      (
        v,
        run,
        record {
          tables = s;
          buffer = b.samples;
          markers = markers;
          samples = rows;
          frames = frames;
          strings = t;
          built = (refl, built);
          shape =
              shape
              ∙ ap
                  (λ x.
                    object_with J pid info s (markers_table J markers) x (frames_table J frames) t)
                  same;
          marker_count = linked.marker_count;
          marker_names = linked.marker_names;
          frame_locations = linked.frame_locations;
          consistent = linked.consistent;
          sample_count = count;
          sample_rows = each;
        },
      )

  thread_values-Each :
      (pid start : ℕ) (b : BufferThread J) (infos : List ThreadInfo)
      → ((tid : ℕ) → All (λ e. IsInterning J e.value) (iter_thread b.markers tid))
      → All (IsSerializable J b) infos
      → (vs : List Value) × (thread_values J pid b start infos ≡ ok vs)
        × Each
            (λ info v.
              IsThreadProfile pid start
                (iter_thread b.markers info.id)
                (iter_thread b.samples info.id)
                info
                v)
            infos
            vs
  unfolding thread_values
  thread_values-Each pid start b [] good first = ([], refl, tt)
  thread_values-Each pid start b (info ∷ infos) good first =
      let (v, run, here) = thread_value-IsThreadProfile pid start b info (good info.id) first.0 in
      let (vs, run', rest) = thread_values-Each pid start b infos good first.1 in
      (v ∷ vs, rw (run, thread_values) (rw run' refl), (here, rest))

  abbrev pub ProfileOf :
      ℕ
      → BufferThread J
      → CoreInfoForSerialization
      → List (BufferEntry (Marker J))
      → List (BufferEntry Sample)
      → Type 0
  ProfileOf pid b core_info marker_log sample_log =
      (threads : List Value) × (serialize_buffer_value J pid b core_info
        ≡ ok (profile J core_info.sampling_interval threads))
      × Each
          (λ info v.
            IsThreadProfile pid core_info.start_time (of_thread info.id marker_log)
              (of_thread info.id sample_log) info v)
          core_info.thread_infos threads

  serialize_buffer_value-ProfileOf :
      (pid : ℕ) (b : BufferThread J) (core_info : CoreInfoForSerialization)
      → All (λ e. IsInterning J e.value) b.markers.buffer
      → All (λ info. FirstHasFrame (of_thread info.id b.samples.buffer)) core_info.thread_infos
      → ProfileOf pid b core_info b.markers.buffer b.samples.buffer
  unfolding serialize_buffer_value iter_thread
  serialize_buffer_value-ProfileOf pid b core_info good first =
      let (vs, run, each) =
        thread_values-Each pid core_info.start_time b core_info.thread_infos
          (λ tid. All-keep (λ e. IsInterning J e.value) (λ e. e.tid == tid) b.markers.buffer good)
          first in
      (vs, rw (run, serialize_buffer_value) refl, each)

  -- After any messages handled without a panic, at times that do not go back, with markers that use
  -- the string table by interning alone: when the first sample of each thread with samples has a frame,
  -- `SerializeBuffer` gives a profile with one object for each registered thread, in order. It shows
  -- the markers that the thread was sent and that had not expired when `ClearExpiredMarkers` last came,
  -- and all samples taken of the thread, each kind in the order in which they were sent.
  pub run-profile :
      (pid life : ℕ) (ds : List (Delivery J)) (b : BufferThread J)
      (sent : List (SerializationMessage J)) (core_info : CoreInfoForSerialization)
      → IsInOrder J 0 ds
      → run J pid (new J life) ds ≡ ok (b, sent)
      → All (λ e. IsInterning J e.value) (pushed (marker_calls J ds))
      → All
          (λ info. FirstHasFrame (of_thread info.id (pushed (sample_calls J ds))))
          core_info.thread_infos
      → ProfileOf pid b core_info
          (fresh (last_expiry 0 (marker_calls J ds)) life (pushed (marker_calls J ds)))
          (pushed (sample_calls J ds))
  run-profile pid life ds b sent core_info o e good first =
      let (ms, ss) = run-contents J pid life ds b sent o e in
      let clock = last_expiry 0 (marker_calls J ds) in
      let kept =
        All-keep (λ e. IsInterning J e.value) (λ e. not (ltb life (clock - e.created_at)))
          (pushed (marker_calls J ds)) good in
      subst (λ m. ProfileOf pid b core_info m (pushed (sample_calls J ds))) ms
        (subst (λ s. ProfileOf pid b core_info b.markers.buffer s) ss
          (serialize_buffer_value-ProfileOf pid b core_info
            (subst (All (λ e. IsInterning J e.value)) (sym ms) kept)
            (subst (λ l. All (λ info. FirstHasFrame (of_thread info.id l)) core_info.thread_infos)
              (sym ss) first)))
