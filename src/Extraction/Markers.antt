-- ===== src/Extraction/Markers.antt =====
-- The test `can_create_and_store_markers` of src/core.rs for any messages: what its helper reads out of
-- the profile of src/buffer_thread.rs.
use profiler_rs.BufferThread.{
  ThreadInfo, CoreInfoForSerialization, SerializationMessage, BufferThread, new,
  serialize_buffer_value, profile, Delivery, run,
}
use profiler_rs.BufferThread.Contents.{IsInOrder, marker_calls, sample_calls}
use profiler_rs.BufferThread.Profiles.{Each, IsThreadProfile, of_thread, run-profile}
use profiler_rs.Extraction.{JsonMap, extract_marker_json}
use profiler_rs.Extraction.Rows.{
  static_entry, expected_rows, MarkerRowsOf-AreRows, extract_marker_json-profile,
}
use profiler_rs.Json.{Json}
use profiler_rs.SamplesSerializer.{Sample}
use profiler_rs.Markers.{Marker, StaticStringMarker, markers_table}
use profiler_rs.Markers.Names.{IsInterning, MarkerRowsOf}
use profiler_rs.Prelude.{
  ℕ, zero, suc, ◌≡◌, refl, List, [], ◌∷◌, some, ok, All, map, get_elem?, length, ap, ◌∙◌, subst,
  none-ne-some, eq_of_some,
}
use profiler_rs.SamplesSerializer.Outcome.{FirstHasFrame}
use profiler_rs.StringTable.{StringTable}
use profiler_rs.TimeExpiringBuffer.{BufferEntry}
use profiler_rs.TimeExpiringBuffer.Expiry.{fresh}
use profiler_rs.TimeExpiringBuffer.History.{pushed, last_expiry}

Each-get_elem? {ℓ κ} :
    {A : Type ℓ} {B : Type κ} (R : A → B → Type 0) (xs : List A) (ys : List B) (k : ℕ) {x : A}
    → Each R xs ys
    → get_elem? xs k ≡ some x
    → (y : B) × (get_elem? ys k ≡ some y) × R x y
Each-get_elem? R [] [] k each at = absurd (none-ne-some at)
Each-get_elem? R [] (_ ∷ _) k each at = absurd each
Each-get_elem? R (_ ∷ _) [] k each at = absurd each
Each-get_elem? R (x ∷ xs) (y ∷ ys) zero each at =
    (y, refl, subst (λ z. R z y) (eq_of_some at) each.0)
Each-get_elem? R (x ∷ xs) (y ∷ ys) (suc k) each at = Each-get_elem? R xs ys k each.1 at

module _ (J : Json) (M : JsonMap J) where
  extract-IsThreadProfile :
      (pid start interval k : ℕ) (ms : List (BufferEntry StaticStringMarker))
      (marker_log : List (BufferEntry (Marker J))) (sample_log : List (BufferEntry Sample))
      (info : ThreadInfo) (threads : List J.Value) (v : J.Value)
      → marker_log ≡ map (static_entry J) ms
      → get_elem? threads k ≡ some v
      → IsThreadProfile J pid start marker_log sample_log info v
      → (t : StringTable) × (extract_marker_json J M (profile J interval threads) k
          ≡ some (t, markers_table J (expected_rows J t ms)))
  extract-IsThreadProfile pid start interval k ms marker_log sample_log info threads v are at p =
      let rows =
        MarkerRowsOf-AreRows J start p.strings ms p.markers (p.marker_count ∙ ap length are)
          (subst (λ l. MarkerRowsOf J start l p.markers p.strings) are p.marker_names) in
      let (t, read, _) =
        extract_marker_json-profile J M interval k pid threads p.markers info p.tables _ _ p.strings
          ms (at ∙ ap some p.shape) p.consistent rows in
      (t, read)

  -- After any messages handled without a panic, at times that do not go back, with markers that use
  -- the string table by interning alone, when the first sample of each thread with samples has a
  -- frame: for a registered thread whose markers that have not expired are static string markers,
  -- reading its table of markers back out of the serialized profile, with the times set to zero,
  -- gives one row for each of these markers, in order: the index that the string table, read back
  -- too, has for its text, and two zeros.
  pub run-extract_marker_json :
      (pid life k : ℕ) (ds : List (Delivery J)) (b : BufferThread J)
      (sent : List (SerializationMessage J)) (core_info : CoreInfoForSerialization)
      (info : ThreadInfo) (ms : List (BufferEntry StaticStringMarker))
      → IsInOrder J 0 ds
      → run J pid (new J life) ds ≡ ok (b, sent)
      → All (λ e. IsInterning J e.value) (pushed (marker_calls J ds))
      → All
          (λ i. FirstHasFrame (of_thread i.id (pushed (sample_calls J ds))))
          core_info.thread_infos
      → get_elem? core_info.thread_infos k ≡ some info
      → of_thread info.id
          (fresh (last_expiry 0 (marker_calls J ds)) life (pushed (marker_calls J ds)))
        ≡ map (static_entry J) ms
      → (v : J.Value) × (t : StringTable) × (serialize_buffer_value J pid b core_info ≡ ok v)
        × (extract_marker_json J M v k ≡ some (t, markers_table J (expected_rows J t ms)))
  run-extract_marker_json pid life k ds b sent core_info info ms o e good first here are =
      let (threads, done, each) = run-profile J pid life ds b sent core_info o e good first in
      let (v, at, p) = Each-get_elem? _ core_info.thread_infos threads k each here in
      let (t, read) =
        extract-IsThreadProfile pid core_info.start_time core_info.sampling_interval k ms _ _ info
          threads v are at p in
      (profile J core_info.sampling_interval threads, t, done, read)
