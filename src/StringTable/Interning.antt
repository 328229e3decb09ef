-- ===== src/StringTable/Interning.antt =====
-- What an index of `StringTable` (src/sampler.rs) means, and how the vector and the map agree.
use text.Mathlib.Text.{◌==◌ as str_eq}
use text.Mathlib.TextEquality.{eq_iff}
use profiler_rs.Prelude.{
  ℕ, ◌≡◌, refl, ◌↔◌, ◌⊎◌, inl, inr, List, [], ◌∷◌, ◌++◌, none, some, String, arith, length,
  get_elem?, if◌then◌else◌, Option-cases, Bool-cases, get_elem?-append, get_elem?-snoc,
  get_elem?-append_last, eq_of_some, sym, ap, subst, ◌∙◌, none-ne-some,
}
use profiler_rs.StringTable.{StringTable, new, get, insert, get_index, take_string}

pub get-insert :
    (k j : String) (v : ℕ) (m : List (String × ℕ))
    → get j (insert k v m) ≡ (if str_eq k j then some v else get j m)
unfolding get insert
get-insert k j v [] = refl
get-insert k j v ((i, w) ∷ m) =
    ground (arith, eq_iff k j, eq_iff i k, eq_iff i j, get-insert k j v m)

-- The map sends a text to the one place of the vector where it stands.
pub record IsConsistent (t : StringTable) : Type 0 where
  pub found :
      (s : String) (i : ℕ) → get s t.string_to_index ≡ some i → get_elem? t.strings i ≡ some s
  pub listed :
      (s : String) (i : ℕ) → get_elem? t.strings i ≡ some s → get s t.string_to_index ≡ some i

pub new-IsConsistent : IsConsistent new
unfolding new get
new-IsConsistent = record {
  found = λ s i e. absurd (none-ne-some e);
  listed = λ s i e. absurd (none-ne-some e);
}

-- The table after a new text.
unfoldable pub added : StringTable → String → StringTable
added t s = record t {
  string_to_index = insert s (length t.strings) t.string_to_index;
  strings = t.strings ++ s ∷ [];
}

added-found :
    (t : StringTable) (s : String)
    → IsConsistent t
    → (r : String) (i : ℕ) → get r (added t s).string_to_index ≡ some i
    → get_elem? (added t s).strings i ≡ some r
unfolding added
added-found t s c r i e = elim (Bool-cases (str_eq s r)) [
  | inl same ↦
      let got : some (length t.strings) ≡ some i = rw same at (sym (get-insert s r _ _) ∙ e) in
      rw (← eq_of_some got, ← (eq_iff s r).0 same) (get_elem?-append_last t.strings s)
  | inr other ↦
      let got : get r t.string_to_index ≡ some i = rw other at (sym (get-insert s r _ _) ∙ e) in
      get_elem?-append t.strings _ i (c.found r i got)
]

added-listed :
    (t : StringTable) (s : String)
    → IsConsistent t
    → get s t.string_to_index ≡ none
    → (r : String) (i : ℕ) → get_elem? (added t s).strings i ≡ some r
    → get r (added t s).string_to_index ≡ some i
unfolding added
added-listed t s c new r i e = elim (get_elem?-snoc t.strings s r i e) [
  | inl old ↦
      let got = c.listed r i old in
      elim (Bool-cases (str_eq s r)) [
        | inl same ↦ absurd (
            none-ne-some
              (sym new ∙ (ap (λ k. get k t.string_to_index) ((eq_iff s r).0 same) ∙ got)))
        | inr other ↦ rw (get-insert s r, other) got
      ]
  | inr (at, is) ↦ rw (get-insert s r, (eq_iff s r).1 is, at)
]

pub get_index_cases :
    (t : StringTable) (s : String)
    → ((i : ℕ) × (get s t.string_to_index ≡ some i) × (get_index t s ≡ (i, t)))
      ⊎ ((get s t.string_to_index ≡ none) × (get_index t s ≡ (length t.strings, added t s)))
unfolding get_index added
get_index_cases t s = elim (Option-cases (get s t.string_to_index)) [
  | inl e ↦ inr (e, rw (e, get_index))
  | inr (i, e) ↦ inl (i, e, rw (e, get_index))
]

-- `get_index` keeps the vector and the map in agreement.
pub get_index-IsConsistent :
    (t : StringTable) (s : String) → IsConsistent t → IsConsistent (get_index t s).1
get_index-IsConsistent t s c = elim (get_index_cases t s) [
  | inl (i, _, e) ↦ rw e c
  | inr (new, e) ↦ rw e (record { found = added-found t s c; listed = added-listed t s c new })
]

-- The index that `get_index` returns resolves to the text, and every index that resolved before
-- resolves to the same text after.
pub get_index-resolves :
    (t : StringTable) (s : String)
    → IsConsistent t
    → (get_elem? (get_index t s).1.strings (get_index t s).0 ≡ some s)
      × ((j : ℕ) (r : String)
          → get_elem? t.strings j ≡ some r
          → get_elem? (get_index t s).1.strings j ≡ some r)
unfolding added
get_index-resolves t s c = elim (get_index_cases t s) [
  | inl (i, got, e) ↦ rw e (c.found s i got, λ j r h. h)
  | inr (new, e) ↦
      rw e (get_elem?-append_last t.strings s, λ j r h. get_elem?-append t.strings _ j h)
]

-- A text that is in the table keeps its index, and the table does not change.
pub get_index-known :
    (t : StringTable) (s : String) (i : ℕ)
    → IsConsistent t
    → get_elem? t.strings i ≡ some s
    → get_index t s ≡ (i, t)
unfolding get_index
get_index-known t s i c h = rw (c.listed s i h, get_index)

take_string-get_index : (t : StringTable) (s : String) → take_string t s ≡ get_index t s
unfolding take_string get_index
take_string-get_index t s = refl

-- The table after a run of texts.
pub get_all : StringTable → List String → StringTable
get_all t [] = t
get_all t (s ∷ ss) = get_all (get_index t s).1 ss

pub get_all-IsConsistent :
    (t : StringTable) (ss : List String) → IsConsistent t → IsConsistent (get_all t ss)
unfolding get_all
get_all-IsConsistent t [] c = c
get_all-IsConsistent t (s ∷ ss) c =
    get_all-IsConsistent (get_index t s).1 ss (get_index-IsConsistent t s c)

pub get_all-resolves :
    (t : StringTable) (ss : List String) (j : ℕ) (r : String)
    → IsConsistent t
    → get_elem? t.strings j ≡ some r
    → get_elem? (get_all t ss).strings j ≡ some r
unfolding get_all
get_all-resolves t [] j r c h = h
get_all-resolves t (s ∷ ss) j r c h =
    get_all-resolves (get_index t s).1 ss j r (get_index-IsConsistent t s c)
      ((get_index-resolves t s c).1 j r h)

-- Whatever texts go in between, two calls of `get_index` return the same index exactly if they are
-- given the same text.
pub get_index-eq_iff :
    (t : StringTable) (s : String) (ss : List String) (r : String)
    → IsConsistent t
    → ((get_index (get_all (get_index t s).1 ss) r).0 ≡ (get_index t s).0) ↔ (r ≡ s)
get_index-eq_iff t s ss r c = (same_text, same_index)
  where
    first : StringTable
    first = (get_index t s).1

    c' : IsConsistent (get_all first ss)
    c' = get_all-IsConsistent first ss (get_index-IsConsistent t s c)

    holds : get_elem? (get_all first ss).strings (get_index t s).0 ≡ some s
    holds =
        get_all-resolves first ss _ s (get_index-IsConsistent t s c) (get_index-resolves t s c).0

    same_text : (get_index (get_all first ss) r).0 ≡ (get_index t s).0 → r ≡ s
    same_text e =
        let now = (get_index-resolves (get_all first ss) r c').0 in
        let then_ = (get_index-resolves (get_all first ss) r c').1 (get_index t s).0 s holds in
        eq_of_some (sym now ∙ (ap (get_elem? (get_index (get_all first ss) r).1.strings) e ∙ then_))

    same_index : r ≡ s → (get_index (get_all first ss) r).0 ≡ (get_index t s).0
    same_index e =
        ap (λ p. p.0)
          (get_index-known (get_all first ss) r (get_index t s).0 c' (holds ∙ ap some (sym e)))

-- `take_string` interns as `get_index` does.
pub take_string-IsConsistent :
    (t : StringTable) (s : String) → IsConsistent t → IsConsistent (take_string t s).1
take_string-IsConsistent t s c =
    subst (λ p. IsConsistent p.1) (sym (take_string-get_index t s)) (get_index-IsConsistent t s c)

pub take_string-resolves :
    (t : StringTable) (s : String)
    → IsConsistent t
    → (get_elem? (take_string t s).1.strings (take_string t s).0 ≡ some s)
      × ((j : ℕ) (r : String)
          → get_elem? t.strings j ≡ some r
          → get_elem? (take_string t s).1.strings j ≡ some r)
take_string-resolves t s c =
    subst
      (λ p.
        (get_elem? p.1.strings p.0 ≡ some s)
        × ((j : ℕ) (r : String)
            → get_elem? t.strings j ≡ some r
            → get_elem? p.1.strings j ≡ some r))
      (sym (take_string-get_index t s)) (get_index-resolves t s c)
