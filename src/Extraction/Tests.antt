-- ===== src/Extraction/Tests.antt =====
-- The scenario of the test `can_create_and_store_markers` of src/core.rs, with one thread.
use text.Mathlib.Text.{◌==◌ as str_eq}
use text.Mathlib.TextEquality.{eq_iff}
use profiler_rs.BufferThread.{
  CoreInfoForSerialization, add_marker, BufferThread, new, handle, serialize_buffer_value, Delivery,
  run,
}
use profiler_rs.Extraction.{JsonMap, extract_marker_json}
use profiler_rs.Extraction.Markers.{run-extract_marker_json}
use profiler_rs.Extraction.Rows.{static_entry, expected_rows}
use profiler_rs.Json.Tests.{
  TestValue, TestMembers, no_member, member, object_value, number_value, members, test_json,
}
use profiler_rs.Markers.{StaticStringMarker, static_string_marker, markers_table}
use profiler_rs.Markers.Names.{static_string_marker-IsInterning}
use profiler_rs.Prelude.{
  ℕ, ◌≡◌, refl, List, [], ◌∷◌, ◌++◌, Bool, true, false, Option, none, some, ok, String, All, arith,
  if◌then◌else◌, ap,
}
use profiler_rs.StringTable.{StringTable}
use profiler_rs.TimeExpiringBuffer
use profiler_rs.TimeExpiringBuffer.{BufferEntry, push_back, push_back_at}

-- The members of an object, in their order; the last of a name counts.
abbrev pairs : TestMembers → List (String × TestValue)
pairs no_member = []
pairs (member key v ms) = (key, v) ∷ pairs ms

pairs-members : (ms : List (String × TestValue)) → pairs (members ms) ≡ ms
pairs-members [] = refl
pairs-members (m ∷ ms) = ap (◌∷◌ m) (pairs-members ms)

abbrev pairs_of : TestValue → Option (List (String × TestValue))
pairs_of (object_value ms) = some (pairs ms)
pairs_of _ = none

abbrev number_of : TestValue → Option ℕ
number_of (number_value n) = some n
number_of _ = none

abbrev has_number : TestValue → Bool
has_number (number_value _) = true
has_number _ = false

abbrev or_else : Option TestValue → Option TestValue → Option TestValue
or_else (some v) other = some v
or_else none other = other

last_of : String → List (String × TestValue) → Option TestValue
last_of key [] = none
last_of key ((name, v) ∷ ms) = or_else (last_of key ms) (if str_eq name key then some v else none)

-- The member in front, given whether a later one has the name.
abbrev in_front :
    String
    → TestValue
    → (String × TestValue)
    → Option TestValue
    → (ms replaced : List (String × TestValue)) → List (String × TestValue)
in_front key w m (some _) ms replaced = m ∷ replaced
in_front key w (name, v) none ms replaced = (name, if str_eq name key then w else v) ∷ ms

replace_last : String → TestValue → List (String × TestValue) → List (String × TestValue)
replace_last key w [] = []
replace_last key w (m ∷ ms) = in_front key w m (last_of key ms) ms (replace_last key w ms)

last_of-none :
    (key : String) (ms : List (String × TestValue))
    → All (λ m. str_eq m.0 key ≡ false) ms
    → last_of key ms ≡ none
unfolding last_of
last_of-none key [] h = refl
last_of-none key (m ∷ ms) h = rw (last_of-none key ms h.1, h.0) refl

same_key : (key : String) → str_eq key key ≡ true
same_key key = (eq_iff key key).1 refl

last_of-mid :
    (key : String) (v : TestValue) (before after : List (String × TestValue))
    → All (λ m. str_eq m.0 key ≡ false) after
    → last_of key (before ++ (key, v) ∷ after) ≡ some v
unfolding last_of
last_of-mid key v [] after h = rw (last_of-none key after h, same_key key) refl
last_of-mid key v (m ∷ before) after h = rw (last_of-mid key v before after h) refl

replace_last-mid :
    (key : String) (v w : TestValue) (before after : List (String × TestValue))
    → All (λ m. str_eq m.0 key ≡ false) after
    → replace_last key w (before ++ (key, v) ∷ after) ≡ before ++ (key, w) ∷ after
unfolding replace_last
replace_last-mid key v w [] after h = rw (last_of-none key after h, same_key key) refl
replace_last-mid key v w (m ∷ before) after h =
    rw (last_of-mid key v before after h) (ap (◌∷◌ m) (replace_last-mid key v w before after h))

abbrev test_map : JsonMap test_json
test_map = record {
  Map = List (String × TestValue);
  map_of = λ ms. ms;
  as_object = pairs_of;
  get = last_of;
  assign = replace_last;
  to_value = λ ms. object_value (members ms);
  as_u64 = number_of;
  is_number = has_number;
  as_object-object = λ ms. ap some (pairs-members ms);
  to_value-map_of = λ ms. refl;
  get-map_of = last_of-mid;
  assign-map_of = replace_last-mid;
  as_u64-number = λ n h. refl;
  is_number-number = λ n. refl;
}

abbrev marker_entry : ℕ → String → BufferEntry StaticStringMarker
marker_entry created_at text = record {
  tid = 1;
  created_at = created_at;
  value = record { string = text };
}

abbrev first : BufferEntry StaticStringMarker
first = marker_entry 10 "Thread 1, Marker 1"

abbrev second : BufferEntry StaticStringMarker
second = marker_entry 20 "Thread 1, Marker 2"

abbrev delivery : BufferEntry StaticStringMarker → Delivery test_json
delivery e = record {
  now = e.created_at;
  core_alive = true;
  message = add_marker e.tid (static_string_marker test_json e.value);
}

abbrev core_info : CoreInfoForSerialization
core_info = record {
  start_time = 0;
  sampling_interval = 10;
  thread_infos = record { id = 1; name = "Example thread 1" } ∷ [];
}

abbrev after_both : BufferThread test_json
after_both = record {
  markers = record {
    buffer = static_entry test_json first ∷ static_entry test_json second ∷ [];
    entry_lifetime = 100;
  };
  samples = record { buffer = []; entry_lifetime = 100 };
  is_waiting_for_one_sample = false;
}

both_run :
    run test_json 7 (new test_json 100) (delivery first ∷ delivery second ∷ [])
    ≡ ok (after_both, [])
unfolding run handle new TimeExpiringBuffer.new push_back push_back_at
both_run = refl

run-extract_marker_json_example :
    (v : TestValue) × (t : StringTable) × (serialize_buffer_value test_json 7 after_both core_info
      ≡ ok v)
    × (extract_marker_json test_json test_map v 0
        ≡ some (t, markers_table test_json (expected_rows test_json t (first ∷ second ∷ []))))
run-extract_marker_json_example =
    run-extract_marker_json test_json test_map 7 100 0 (delivery first ∷ delivery second ∷ [])
      after_both [] core_info (record { id = 1; name = "Example thread 1" }) (first ∷ second ∷ [])
      (omega arith, (omega arith, tt)) both_run
      (
        static_string_marker-IsInterning test_json first.value,
        (static_string_marker-IsInterning test_json second.value, tt),
      )
      (tt, tt) refl refl
