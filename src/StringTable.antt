-- ===== src/StringTable.antt =====
-- `StringTable` of src/sampler.rs. The `HashMap<String, usize>` is an association list with one
-- entry for each key that was inserted, and the `Vec<String>` a list. An index is below the length
-- of the `Vec`, so it does not overflow a `usize`.
pub mod Interning
pub mod RoundTrip
mod Tests
use text.Mathlib.Text.{◌==◌ as str_eq}
use profiler_rs.Json.{Json}
use profiler_rs.Prelude.{
  ℕ, List, [], ◌∷◌, ◌++◌, Option, none, some, String, map, length, if◌then◌else◌,
}

-- `HashMap::get`.
pub get : String → List (String × ℕ) → Option ℕ
get k [] = none
get k ((j, v) ∷ m) = if str_eq j k then some v else get k m

-- `HashMap::insert`.
pub insert : String → ℕ → List (String × ℕ) → List (String × ℕ)
insert k v [] = (k, v) ∷ []
insert k v ((j, w) ∷ m) = if str_eq j k then (k, v) ∷ m else (j, w) ∷ insert k v m

pub record StringTable : Type 0 where
  pub string_to_index : List (String × ℕ)
  pub strings : List String

pub new : StringTable
new = record { string_to_index = []; strings = [] }

-- The index, and the table after the call.
pub take_string : StringTable → String → ℕ × StringTable
take_string t string = elim (get string t.string_to_index) [
  | some index ↦ (index, t)
  | none ↦
      let index = length t.strings in
      (
        index,
        record t {
          string_to_index = insert string index t.string_to_index;
          strings = t.strings ++ string ∷ [];
        },
      )
]

pub get_index : StringTable → String → ℕ × StringTable
get_index t string = elim (get string t.string_to_index) [
  | some index ↦ (index, t)
  | none ↦
      let index = length t.strings in
      (
        index,
        record t {
          string_to_index = insert string index t.string_to_index;
          strings = t.strings ++ string ∷ [];
        },
      )
]

module _ (J : Json) where
  open J use {Value, array, string, as_str}

  pub serialize : StringTable → Value
  serialize t = array (map string t.strings)

  -- The loop of `from_json`. `none` is the panic of `expect` on a value that is no string.
  from_json_loop : StringTable → List Value → Option StringTable
  from_json_loop t [] = some t
  from_json_loop t (value ∷ json) = elim (as_str value) [
    | none ↦ none
    | some s ↦ from_json_loop (get_index t s).1 json
  ]

  pub from_json : List Value → Option StringTable
  unfolding from_json_loop
  from_json json = from_json_loop new json
