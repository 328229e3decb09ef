-- ===== src/StringTable/Tests.antt =====
-- The theorems on `StringTable` (src/sampler.rs) at concrete texts.
use profiler_rs.Json.Tests.{test_json}
use profiler_rs.Prelude.{ℕ, ◌≡◌, ◌↔◌, refl, List, [], ◌∷◌, some, String, get_elem?}
use profiler_rs.StringTable.{StringTable, new, get, insert, get_index, serialize, from_json}
use profiler_rs.StringTable.Interning.{
  IsConsistent, new-IsConsistent, get_index-IsConsistent, get_index-resolves, get_all,
  get_index-eq_iff,
}
use profiler_rs.StringTable.RoundTrip.{from_json-serialize}

-- Two calls of `get_index`, of which the second finds the text.
marker_index : (get_index (get_index new "Marker").1 "Marker").0 ≡ 0
unfolding get_index new get insert
marker_index = refl

abbrev one_text : StringTable
one_text = (get_index new "Marker").1

one_text-IsConsistent : IsConsistent one_text
one_text-IsConsistent = get_index-IsConsistent new "Marker" new-IsConsistent

get_index-resolves_example :
    (get_elem? (get_index one_text "Other").1.strings (get_index one_text "Other").0 ≡ some "Other")
    × ((j : ℕ) (r : String)
        → get_elem? one_text.strings j ≡ some r
        → get_elem? (get_index one_text "Other").1.strings j ≡ some r)
get_index-resolves_example = get_index-resolves one_text "Other" one_text-IsConsistent

get_index-eq_iff_example :
    ((get_index (get_all one_text ("Other" ∷ "Marker" ∷ [])) "Marker").0
      ≡ (get_index new "Marker").0)
    ↔ ◌≡◌ {A = String} "Marker" "Marker"
get_index-eq_iff_example =
    get_index-eq_iff new "Marker" ("Other" ∷ "Marker" ∷ []) "Marker" new-IsConsistent

from_json-serialize_example :
    (vs : List test_json.Value) × (t' : StringTable) × (test_json.as_array
        (serialize test_json one_text)
      ≡ some vs)
    × (from_json test_json vs ≡ some t')
    × (t'.strings ≡ one_text.strings)
    × ((s : String) → (get_index t' s).0 ≡ (get_index one_text s).0)
    × IsConsistent t'
from_json-serialize_example = from_json-serialize test_json one_text one_text-IsConsistent
