-- ===== src/Json.antt =====
-- What the program uses of serde_json: a type of JSON values, the constructors that the `json!`
-- macro expands to, and the two accessors that are read back. The order in which an object keeps
-- its members is left open.
pub mod Tests
use profiler_rs.Prelude.{ℕ, ◌≡◌, List, Bool, Option, some, String}

pub record Json : Type 1 where
  pub Value : Type 0
  pub null : Value
  pub bool : Bool → Value
  pub number : ℕ → Value
  pub string : String → Value
  pub array : List Value → Value
  pub object : List (String × Value) → Value
  pub as_str : Value → Option String
  pub as_array : Value → Option (List Value)
  -- `Value::as_str` of a string is that string, `Value::as_array` of an array its items.
  pub as_str-string : (s : String) → as_str (string s) ≡ some s
  pub as_array-array : (vs : List Value) → as_array (array vs) ≡ some vs
