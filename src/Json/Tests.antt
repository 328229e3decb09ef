-- ===== src/Json/Tests.antt =====
-- Concrete JSON values, at which the theorems on the serialized profile are tried.
use profiler_rs.Json.{Json}
use profiler_rs.Prelude.{ℕ, ◌≡◌, refl, ap, List, [], ◌∷◌, Bool, Option, none, some, String}

mutual
  pub data TestValue : Type 0 where
    null_value : TestValue
    bool_value : Bool → TestValue
    number_value : ℕ → TestValue
    string_value : String → TestValue
    array_value : TestItems → TestValue
    object_value : TestMembers → TestValue

  pub data TestItems : Type 0 where
    no_item : TestItems
    item : TestValue → TestItems → TestItems

  pub data TestMembers : Type 0 where
    no_member : TestMembers
    member : String → TestValue → TestMembers → TestMembers

abbrev pub items : List TestValue → TestItems
items [] = no_item
items (v ∷ vs) = item v (items vs)

abbrev pub members : List (String × TestValue) → TestMembers
members [] = no_member
members ((key, v) ∷ ms) = member key v (members ms)

abbrev pub values : TestItems → List TestValue
values no_item = []
values (item v vs) = v ∷ values vs

abbrev pub string_of : TestValue → Option String
string_of (string_value s) = some s
string_of _ = none

abbrev pub array_of : TestValue → Option (List TestValue)
array_of (array_value vs) = some (values vs)
array_of _ = none

pub values-items : (vs : List TestValue) → values (items vs) ≡ vs
values-items [] = refl
values-items (v ∷ vs) = ap (◌∷◌ v) (values-items vs)

abbrev pub test_json : Json
test_json = record {
  Value = TestValue;
  null = null_value;
  bool = bool_value;
  number = number_value;
  string = string_value;
  array = λ vs. array_value (items vs);
  object = λ ms. object_value (members ms);
  as_str = string_of;
  as_array = array_of;
  as_str-string = λ s. refl;
  as_array-array = λ vs. ap some (values-items vs);
}
