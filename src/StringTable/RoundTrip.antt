-- ===== src/StringTable/RoundTrip.antt =====
-- `StringTable::serialize` and `from_json` of src/sampler.rs.
use profiler_rs.Json.{Json}
use profiler_rs.Prelude.{
  ℕ, ◌≡◌, refl, inl, inr, List, [], ◌∷◌, ◌++◌, some, String, arith, length, map, get_elem?,
  get_elem?-append, get_elem?-lt, sym, ap, ◌∙◌, append_assoc, append-nil, subst, eq_of_some,
  none-ne-some, get_elem?-append_mid,
}
use profiler_rs.StringTable.{StringTable, new, get_index, serialize, from_json_loop, from_json}
use profiler_rs.StringTable.Interning.{
  IsConsistent, new-IsConsistent, get_index-IsConsistent, get_index_cases, added,
}

-- No text stands at two places.
abbrev pub IsInjective : List String → Type 0
IsInjective ss = (i j : ℕ) (s : String) → get_elem? ss i ≡ some s → get_elem? ss j ≡ some s → i ≡ j

strings-IsInjective : (t : StringTable) → IsConsistent t → IsInjective t.strings
strings-IsInjective t c i j s hi hj = eq_of_some (sym (c.listed s i hi) ∙ c.listed s j hj)

-- A text that is not yet in the table goes to its end.
get_index-new :
    (t : StringTable) (s : String) (ss : List String)
    → IsConsistent t
    → IsInjective (t.strings ++ s ∷ ss)
    → (get_index t s).1.strings ≡ t.strings ++ s ∷ []
unfolding added
get_index-new t s ss c inj = elim (get_index_cases t s) [
  | inl (i, got, e) ↦
      let at = get_elem?-append t.strings (s ∷ ss) i (c.found s i got) in
      let here = get_elem?-append_mid t.strings s ss in
      absurd (omega (arith, inj i _ s at here, get_elem?-lt t.strings i (c.found s i got)))
  | inr (_, e) ↦ rw e
]

-- Tables with the same texts give the same indices.
same_indices :
    (t u : StringTable)
    → IsConsistent t
    → IsConsistent u
    → t.strings ≡ u.strings
    → (s : String) → (get_index t s).0 ≡ (get_index u s).0
unfolding added
same_indices t u c d e s = elim (get_index_cases t s) [
  | inl (i, got, run) ↦ elim (get_index_cases u s) [
    | inl (j, got', run') ↦
        let at = d.listed s i (ap (λ l. get_elem? l i) (sym e) ∙ c.found s i got) in
        rw (run, run') (eq_of_some (sym at ∙ got'))
    | inr (missing', _) ↦
        let at = d.listed s i (ap (λ l. get_elem? l i) (sym e) ∙ c.found s i got) in
        absurd (none-ne-some (sym missing' ∙ at))
  ]
  | inr (missing, run) ↦ elim (get_index_cases u s) [
    | inl (j, got', _) ↦
        let at = c.listed s j (ap (λ l. get_elem? l j) e ∙ d.found s j got') in
        absurd (none-ne-some (sym missing ∙ at))
    | inr (_, run') ↦ rw (run, run') (ap length e)
  ]
]

module _ (J : Json) where
  open J use {Value, array, string, as_array, as_str-string, as_array-array}

  from_json_loop-strings :
      (t : StringTable) (ss : List String)
      → IsConsistent t
      → IsInjective (t.strings ++ ss)
      → (t' : StringTable) × (from_json_loop J t (map string ss) ≡ some t')
        × (t'.strings ≡ t.strings ++ ss)
        × IsConsistent t'
  unfolding from_json_loop
  from_json_loop-strings t [] c inj = (t, refl, sym (append-nil t.strings), c)
  from_json_loop-strings t (s ∷ ss) c inj =
      let grown = get_index-new t s ss c inj in
      let regroup : (get_index t s).1.strings ++ ss ≡ t.strings ++ s ∷ ss =
        ap (λ l. l ++ ss) grown ∙ append_assoc t.strings _ ss in
      let (t', run, at, c') =
        from_json_loop-strings (get_index t s).1 ss (get_index-IsConsistent t s c)
          (subst IsInjective (sym regroup) inj) in
      rw (as_str-string s) (t', run, at ∙ regroup, c')

  -- The string table that is written as JSON, read as an array and fed to `from_json` gives a table
  -- with the same texts at the same indices, without a panic.
  pub from_json-serialize :
      (t : StringTable)
      → IsConsistent t
      → (vs : List Value) × (t' : StringTable) × (as_array (serialize J t) ≡ some vs)
        × (from_json J vs ≡ some t')
        × (t'.strings ≡ t.strings)
        × ((s : String) → (get_index t' s).0 ≡ (get_index t s).0)
        × IsConsistent t'
  unfolding serialize from_json new
  from_json-serialize t c =
      let (t', run, at, c') =
        from_json_loop-strings new t.strings new-IsConsistent (strings-IsInjective t c) in
      (map string t.strings, t', as_array-array _, run, at, same_indices t' t c' c at, c')
