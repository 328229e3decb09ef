-- ===== src/SamplesSerializer/Repeats.antt =====
-- When two samples share an index of the stack table of `SamplesSerializer::new` (src/sampler.rs).
use native.Mathlib.Decide.{dec_lt}
use profiler_rs.Address
use profiler_rs.Address.{ProcessMemoryAddress}
use profiler_rs.Prelude.{
  ℕ, zero, suc, ◌≤◌, ◌≡◌, refl, List, [], ◌∷◌, Option, none, some, ok, arith, length, get_elem?,
  get_elem?-lt, get_elem?-some, if◌then◌else◌, Bool-cases, inl, inr, sym, ap, ◌∙◌, none-ne-some,
  eq_of_some, subst,
}
use profiler_rs.SamplesSerializer.{Sample, StackTable, SamplesSerializer, new}
use profiler_rs.SamplesSerializer.Frames.{
  Walked, stop, frame, Extends, Extends-refl, Extends-trans, Lands-lt, Lands-entry, Lands-Extends,
  Walked-Extends,
}
use profiler_rs.SamplesSerializer.Outcome.{new_ok}
use profiler_rs.SamplesSerializer.Samples.{stacks, Sampled, done, sample}
use profiler_rs.SamplesSerializer.Search.{Lands, hit, miss, NoneBetween, eq_iff}
use profiler_rs.TimeExpiringBuffer.{TimeExpiringBuffer, iter_thread}

-- A search has one result.
Lands-unique :
    {t u v : StackTable} {last : Option ℕ} {i j k : ℕ} {f : ProcessMemoryAddress}
    → Lands t last i f j u
    → Lands t last i f k v
    → (j ≡ k) × (u ≡ v)
Lands-unique {j} {k} (hit e h at is n same) (hit e' h' at' is' n' same') = (first, same ∙ sym same')
  where
    first : j ≡ k
    first = elim (dec_lt j k) [
      | yes before ↦ absurd (n' j e h before at is)
      | no not_before ↦ elim (dec_lt k j) [
        | yes after ↦ absurd (n k e' h' after at' is')
        | no not_after ↦ omega arith
      ]
    ]
Lands-unique {t} {j} (hit e h at is n same) (miss n' end' grown') =
    absurd (n' j e h (get_elem?-lt t j at) at is)
Lands-unique {t} {k} (miss n end grown) (hit e' h' at' is' n' same') =
    absurd (n k e' h' (get_elem?-lt t k at') at' is')
Lands-unique (miss n end grown) (miss n' end' grown') = (end ∙ sym end', grown ∙ sym grown')

pub Walked-unique :
    {t u v : StackTable} {last : Option ℕ} {i j k : ℕ} {fs : List ProcessMemoryAddress}
    → Walked t last i fs j u
    → Walked t last i fs k v
    → (j ≡ k) × (u ≡ v)
Walked-unique stop stop = (refl, refl)
Walked-unique {v} {k} (frame {table' = w} {j = m} {rest = fs} lands rest)
      (frame {table' = w'} {j = m'} lands' rest') =
    let (same_index, same_table) = Lands-unique lands lands' in
    Walked-unique rest (
      subst (λ n. Walked w (some n) n fs k v) (sym same_index)
        (subst (λ x. Walked x (some m') m' fs k v) (sym same_table) rest'))

-- In a table that holds the entries of a smaller one, a smaller part of the search finds the same.
NoneBetween-Extends :
    {t u : StackTable} (i j : ℕ) (f : ProcessMemoryAddress)
    → Extends t u
    → j ≤ length t
    → NoneBetween t i j f
    → NoneBetween u i j f
NoneBetween-Extends {t} i j f x h n k e p q at =
    let (e', at') = get_elem?-some t k (omega arith) in
    n k e p q (at' ∙ (sym (x.kept k e' at') ∙ at))

-- A search that ended, done again in the grown table, ends at the same place and adds nothing.
Lands-again :
    {t u v : StackTable} {last : Option ℕ} {i j : ℕ} {f : ProcessMemoryAddress}
    → i ≤ length t
    → Lands t last i f j u
    → Extends u v
    → Lands v last i f j v
Lands-again {t} {u} {v} {i} {j} {f} h (hit e le at is n same) x =
    let x' : Extends t v = subst (λ w. Extends w v) same x in
    hit e le (x'.kept j e at) is
      (NoneBetween-Extends i j f x' (omega (arith, get_elem?-lt t j at)) n) refl
Lands-again {t} {u} {v} {last} {i} {j} {f} h (miss n end grown) x =
    let lands : Lands t last i f j u = miss n end grown in
    let (e, at, is) = Lands-entry lands in
    hit e (omega arith) (x.kept j e at) is
      (NoneBetween-Extends i j f (Extends-trans (Lands-Extends lands) x) (omega arith) (rw end n))
      refl

Walked-again :
    {t u v : StackTable} {last : Option ℕ} {i j : ℕ} {fs : List ProcessMemoryAddress}
    → i ≤ length t
    → Walked t last i fs j u
    → Extends u v
    → Walked v last i fs j v
Walked-again h stop x = stop
Walked-again h (frame lands rest) x =
    frame (Lands-again h lands (Extends-trans (Walked-Extends rest) x))
      (Walked-again (omega (arith, Lands-lt lands)) rest x)

-- The frames with each run of one address made a single frame.
unfoldable pub unrepeat : List ProcessMemoryAddress → List ProcessMemoryAddress
unrepeat [] = []
unrepeat (f ∷ []) = f ∷ []
unrepeat (f ∷ g ∷ fs) = let rest = unrepeat (g ∷ fs) in if Address.eq f g then rest else f ∷ rest

-- Searching for the same address again stays where it is.
Lands-stays :
    {t u v : StackTable} {last : Option ℕ} {i j k : ℕ} {f : ProcessMemoryAddress}
    → Lands t last i f j u
    → Lands u (some j) j f k v
    → (k ≡ j) × (v ≡ u)
Lands-stays {j} lands lands' =
    let (e, at, is) = Lands-entry lands in
    Lands-unique lands' (hit e (omega arith) at is (λ k e' p q. absurd (omega arith)) refl)

Walked-unrepeat :
    {t u : StackTable} {last : Option ℕ} {i j : ℕ} (fs : List ProcessMemoryAddress)
    → Walked t last i fs j u
    → Walked t last i (unrepeat fs) j u
unfolding unrepeat
Walked-unrepeat [] walked = walked
Walked-unrepeat (f ∷ []) walked = walked
Walked-unrepeat {t} {u} {last} {i} {j} (f ∷ g ∷ fs)
      (frame {table' = w} {j = m} lands (frame {table' = w'} {j = m'} lands' rest)) =
    elim (Bool-cases (Address.eq f g)) [
      | inl same ↦
          let is = (eq_iff f g).0 same in
          let (stays, kept) =
            Lands-stays lands (subst (λ a. Lands w (some m) m a m' w') (sym is) lands') in
          let rest' =
            subst (λ n. Walked w (some n) n fs j u) stays
              (subst (λ x. Walked x (some m') m' fs j u) kept rest) in
          rw same
            (Walked-unrepeat (g ∷ fs) (frame (subst (λ a. Lands t last i a m w) is lands) rest'))
      | inr other ↦ rw other (frame lands (Walked-unrepeat (g ∷ fs) (frame lands' rest)))
    ]

-- A sample behind one whose frames are the same up to repetition gets the same index.
Sampled-later :
    {t u v : StackTable} {ss : List (List ProcessMemoryAddress)} {js : List ℕ} {j : ℕ}
    (fs gs : List ProcessMemoryAddress) (l : ℕ)
    → Walked t none 0 fs j u
    → unrepeat fs ≡ unrepeat gs
    → (w : StackTable) → Extends u w
    → Sampled w ss js v
    → get_elem? ss l ≡ some gs
    → get_elem? js l ≡ some j
Sampled-later fs gs l walked is w x done at = absurd (none-ne-some at)
Sampled-later {j} fs gs zero walked is w x (sample {table' = w'} {j = k} {fs = hs} here rest) at =
    let there : Walked w none 0 (unrepeat hs) k w' = Walked-unrepeat hs here in
    let same : unrepeat fs ≡ unrepeat hs = is ∙ ap unrepeat (sym (eq_of_some at)) in
    let again = Walked-again (omega arith) (Walked-unrepeat fs walked) x in
    ap some (Walked-unique there (subst (λ l. Walked w none 0 l j w) same again)).0
Sampled-later fs gs (suc l) walked is w x (sample {table' = w'} here rest) at =
    Sampled-later fs gs l walked is w' (Extends-trans x (Walked-Extends here)) rest at

Sampled-same :
    {t u : StackTable} {ss : List (List ProcessMemoryAddress)} {js : List ℕ} (k l : ℕ)
    (fs gs : List ProcessMemoryAddress)
    → unrepeat fs ≡ unrepeat gs
    → Sampled t ss js u
    → get_elem? ss k ≡ some fs
    → get_elem? ss l ≡ some gs
    → get_elem? js k ≡ get_elem? js l
Sampled-same k l fs gs is done at at' = absurd (none-ne-some at)
Sampled-same zero zero fs gs is (sample here rest) at at' = refl
Sampled-same zero (suc l) fs gs is (sample {table' = w} {fs = hs} here rest) at at' =
    sym (Sampled-later hs gs l here (ap unrepeat (eq_of_some at) ∙ is) w (Extends-refl w) rest at')
Sampled-same (suc k) zero fs gs is (sample {table' = w} {fs = hs} here rest) at at' =
    Sampled-later hs fs k here (ap unrepeat (eq_of_some at') ∙ sym is) w (Extends-refl w) rest at
Sampled-same (suc k) (suc l) fs gs is (sample here rest) at at' =
    Sampled-same k l fs gs is rest at at'

-- Samples with the same frames get the same index of the stack table, wherever they stand; and so do
-- samples whose frames differ only in how often an address follows itself, so that the depth of a
-- direct recursion is lost.
pub new-unrepeat :
    (at : ℕ) (buffer : TimeExpiringBuffer Sample) (tid : ℕ) (s : SamplesSerializer) (k l : ℕ)
    (fs gs : List ProcessMemoryAddress)
    → new at buffer tid ≡ ok s
    → get_elem? (stacks (iter_thread buffer tid)) k ≡ some fs
    → get_elem? (stacks (iter_thread buffer tid)) l ≡ some gs
    → unrepeat fs ≡ unrepeat gs
    → get_elem? s.buffer_entry_to_stack_table k ≡ get_elem? s.buffer_entry_to_stack_table l
new-unrepeat at buffer tid s k l fs gs run here there is =
    Sampled-same k l fs gs is (new_ok at buffer tid s run).1 here there
