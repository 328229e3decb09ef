-- ===== src/Extraction.antt =====
-- src/core.rs, the helpers of its tests that read the markers of a thread back out of a profile. The
-- panic of an `expect` is `none`.
mod Markers
mod Rows
mod Tests
use text.Mathlib.Text.{◌==◌ as str_eq}
use profiler_rs.Json.{Json}
use profiler_rs.Prelude.{
  ℕ, ◌<◌, ◌^◌, ◌≡◌, List, [], ◌∷◌, ◌++◌, Bool, true, false, Option, none, some, String, All,
  get_elem?, set, if◌then◌else◌,
}
use profiler_rs.StringTable.{StringTable, from_json}

-- What the helpers use of serde_json besides: the members of an object, `Map`, with `get_mut` and an
-- assignment to what it returns as one call, and the accessors of numbers. An object has the members
-- that it is made of; of two with the same name it has the later one.
pub record JsonMap (J : Json) : Type 1 where
  pub Map : Type 0
  pub map_of : List (String × J.Value) → Map
  pub as_object : J.Value → Option Map
  pub get : String → Map → Option J.Value
  pub assign : String → J.Value → Map → Map
  pub to_value : Map → J.Value
  pub as_u64 : J.Value → Option ℕ
  pub is_number : J.Value → Bool
  pub as_object-object : (ms : List (String × J.Value)) → as_object (J.object ms) ≡ some (map_of ms)
  pub to_value-map_of : (ms : List (String × J.Value)) → to_value (map_of ms) ≡ J.object ms
  pub get-map_of :
      (key : String) (v : J.Value) (before after : List (String × J.Value))
      → All (λ m. str_eq m.0 key ≡ false) after
      → get key (map_of (before ++ (key, v) ∷ after)) ≡ some v
  pub assign-map_of :
      (key : String) (v w : J.Value) (before after : List (String × J.Value))
      → All (λ m. str_eq m.0 key ≡ false) after
      → assign key w (map_of (before ++ (key, v) ∷ after)) ≡ map_of (before ++ (key, w) ∷ after)
  pub as_u64-number : (n : ℕ) → n < 2 ^ 64 → as_u64 (J.number n) ≡ some n
  pub is_number-number : (n : ℕ) → is_number (J.number n) ≡ true

-- `expect`, and what follows it.
infixl 5 ◌>>=◌
abbrev pub ◌>>=◌ {ℓ κ} : {A : Type ℓ} {B : Type κ} → Option A → (A → Option B) → Option B
none >>= next = none
some value >>= next = next value

module _ (J : Json) (M : JsonMap J) where
  open J use {Value, number, array, as_array}
  open M use {Map, as_object, get, assign, to_value, as_u64, is_number}

  -- The loop over the tuples: `*time = json!(0)` for a time that is a number.
  pub zero_times : (time_index : ℕ) → List Value → Option (List Value)
  zero_times time_index [] = some []
  zero_times time_index (value ∷ rest) = do
    items ← as_array value
    time ← get_elem? items time_index
    values ← zero_times time_index rest
    some ((if is_number time then array (set items time_index (number 0)) else value) ∷ values)

  pub set_time_values_to_zero : Map → Option Map
  set_time_values_to_zero markers_table = do
    schema_value ← get "schema" markers_table
    schema ← as_object schema_value
    time_value ← get "time" schema
    time_index ← as_u64 time_value
    data_value ← get "data" markers_table
    tuples ← as_array data_value
    zeroed ← zero_times time_index tuples
    some (assign "data" (array zeroed) markers_table)

  pub extract_marker_json : (profile : Value) → (index : ℕ) → Option (StringTable × Value)
  extract_marker_json profile index = do
    members ← as_object profile
    threads_value ← get "threads" members
    threads ← as_array threads_value
    thread_value ← get_elem? threads index
    thread ← as_object thread_value
    markers_value ← get "markers" thread
    table ← as_object markers_value
    markers ← set_time_values_to_zero table
    strings_value ← get "stringTable" thread
    strings ← as_array strings_value
    string_table ← from_json J strings
    some (string_table, to_value markers)
