-- ===== src/SamplesSerializer/CallTree.antt =====
-- Stack tables of `SamplesSerializer::new` (src/sampler.rs) that are trees of calls, and the search for
-- one frame in them.
use profiler_rs.Address.{ProcessMemoryAddress}
use profiler_rs.Prelude.{
  ℕ, ◌≡◌, refl, ◌≢◌, List, [], ◌∷◌, ◌++◌, Option, none, some, arith, length, get_elem?,
  get_elem?-snoc, get_elem?-append_last, get_elem?-lt, ◌⊎◌, inl, inr, sym, ap, ◌∙◌, none-ne-some,
  eq_of_some, subst,
}
use profiler_rs.SamplesSerializer.{StackForSerialization, StackTable}
use profiler_rs.SamplesSerializer.Frames.{Extends, Lands-Extends}
use profiler_rs.SamplesSerializer.Order.{IsWellOrdered, IsWithin, Names, Lands-IsWellOrdered}
use profiler_rs.SamplesSerializer.Search.{stack, Lands, hit, miss, NoneBetween}

-- The stack that an index stands for, leaf first: its entry's address, then the stack of its prefix.
pub data StackOf (table : StackTable) : Option ℕ → List ProcessMemoryAddress → Type 0 where
  root : StackOf table none []
  above :
      {k : ℕ} {f : ProcessMemoryAddress} {fs : List ProcessMemoryAddress}
      (e : StackForSerialization)
      → get_elem? table k ≡ some e
      → e.instruction_ptr ≡ f
      → StackOf table e.prefix fs
      → StackOf table (some k) (f ∷ fs)

pub StackOf-Extends :
    {table table' : StackTable} {i : Option ℕ} {fs : List ProcessMemoryAddress}
    → Extends table table'
    → StackOf table i fs
    → StackOf table' i fs
StackOf-Extends x root = root
StackOf-Extends x (above {k} e at is rest) = above e (x.kept k e at) is (StackOf-Extends x rest)

-- Each frame of a stack, root first, is called from the one before it, the first from none.
abbrev pub IsCallPath :
    (ProcessMemoryAddress → Option ProcessMemoryAddress)
    → Option ProcessMemoryAddress
    → List ProcessMemoryAddress
    → Type 0
IsCallPath caller last [] = Unit
IsCallPath caller last (f ∷ fs) = (caller f ≡ last) × IsCallPath caller (some f) fs

-- An index, or none, stands for an address, or none.
abbrev pub PrefixIs : StackTable → Option ℕ → Option ProcessMemoryAddress → Type 0
PrefixIs table none m = m ≡ none
PrefixIs table (some p) m = (a : ProcessMemoryAddress) × (m ≡ some a) × Names table p a

-- Where the search after the entry `last` starts.
abbrev pub StartsAt : Option ℕ → ℕ → Type 0
StartsAt none i = i ≡ 0
StartsAt (some p) i = i ≡ p

PrefixIs-Extends :
    {table table' : StackTable} (p : Option ℕ) (m : Option ProcessMemoryAddress)
    → Extends table table'
    → PrefixIs table p m
    → PrefixIs table' p m
PrefixIs-Extends none m x h = h
PrefixIs-Extends (some p) m x (a, is, (e, at, named)) = (a, is, (e, x.kept p e at, named))

module _ (caller : ProcessMemoryAddress → Option ProcessMemoryAddress) where
  -- Every address has one entry, and an entry's prefix is that of its caller.
  pub record IsTree (table : StackTable) : Type 0 where
    pub ordered : IsWellOrdered table
    pub unique :
        (k l : ℕ) (e e' : StackForSerialization)
        → get_elem? table k ≡ some e
        → get_elem? table l ≡ some e'
        → e.instruction_ptr ≡ e'.instruction_ptr
        → k ≡ l
    pub called :
        (k : ℕ) (e : StackForSerialization)
        → get_elem? table k ≡ some e
        → PrefixIs table e.prefix (caller e.instruction_ptr)

  same_prefix :
      {table : StackTable} (p q : Option ℕ) (m : Option ProcessMemoryAddress)
      → IsTree table
      → PrefixIs table p m
      → PrefixIs table q m
      → p ≡ q
  same_prefix none none m t h h' = refl
  same_prefix none (some q) m t h (a, is, _) = absurd (none-ne-some (sym h ∙ is))
  same_prefix (some p) none m t (a, is, _) h' = absurd (none-ne-some (sym h' ∙ is))
  same_prefix (some p) (some q) m t (a, is, (e, at, named)) (b, is', (e', at', named')) =
      ap some (t.unique p q e e' at at' (named ∙ (eq_of_some (sym is ∙ is') ∙ sym named')))

  -- The entry of a frame has the prefix under which the frame is met.
  prefix_of_entry :
      {table : StackTable} (last : Option ℕ) (f : ProcessMemoryAddress) (k : ℕ)
      (e : StackForSerialization)
      → IsTree table
      → PrefixIs table last (caller f)
      → get_elem? table k ≡ some e
      → e.instruction_ptr ≡ f
      → e.prefix ≡ last
  prefix_of_entry {table} last f k e t h at is =
      same_prefix e.prefix last (caller f) t
        (subst (λ a. PrefixIs table e.prefix (caller a)) is (t.called k e at)) h

  -- If the search misses, the frame has no entry at all.
  absent :
      {table : StackTable} (last : Option ℕ) (i : ℕ) (f : ProcessMemoryAddress)
      → IsTree table
      → PrefixIs table last (caller f)
      → StartsAt last i
      → NoneBetween table i (length table) f
      → (k : ℕ) (e : StackForSerialization) → get_elem? table k ≡ some e
      → e.instruction_ptr ≢ f
  absent {table} none i f t h s n k e at is = n k e (omega arith) (get_elem?-lt table k at) at is
  absent {table} (some p) i f t h s n k e at is =
      let before = t.ordered k p e at (prefix_of_entry (some p) f k e t h at is) in
      n k e (omega arith) (get_elem?-lt table k at) at is

  grown-IsTree :
      {table : StackTable} (last : Option ℕ) (f : ProcessMemoryAddress)
      → IsTree table
      → IsWellOrdered (table ++ stack last f ∷ [])
      → Extends table (table ++ stack last f ∷ [])
      → PrefixIs table last (caller f)
      → ((k : ℕ) (e : StackForSerialization) → get_elem? table k ≡ some e → e.instruction_ptr ≢ f)
      → IsTree (table ++ stack last f ∷ [])
  grown-IsTree {table} last f t o x h nowhere = record {
    ordered = o;
    unique = λ k l e e' at at' is.
        unique k l e e' (get_elem?-snoc table (stack last f) e k at)
          (get_elem?-snoc table (stack last f) e' l at') is;
    called = λ k e at. called k e (get_elem?-snoc table (stack last f) e k at);
  }
    where
      unique :
          (k l : ℕ) (e e' : StackForSerialization)
          → (get_elem? table k ≡ some e) ⊎ ((k ≡ length table) × (stack last f ≡ e))
          → (get_elem? table l ≡ some e') ⊎ ((l ≡ length table) × (stack last f ≡ e'))
          → e.instruction_ptr ≡ e'.instruction_ptr
          → k ≡ l
      unique k l e e' (inl a) (inl b) is = t.unique k l e e' a b is
      unique k l e e' (inl a) (inr (_, b)) is =
          absurd (nowhere k e a (is ∙ sym (ap (λ x. x.instruction_ptr) b)))
      unique k l e e' (inr (_, a)) (inl b) is =
          absurd (nowhere l e' b (sym is ∙ sym (ap (λ x. x.instruction_ptr) a)))
      unique k l e e' (inr (a, _)) (inr (b, _)) is = a ∙ sym b

      called :
          (k : ℕ) (e : StackForSerialization)
          → (get_elem? table k ≡ some e) ⊎ ((k ≡ length table) × (stack last f ≡ e))
          → PrefixIs (table ++ stack last f ∷ []) e.prefix (caller e.instruction_ptr)
      called k e (inl a) = PrefixIs-Extends e.prefix _ x (t.called k e a)
      called k e (inr (_, a)) =
          subst (λ e. PrefixIs (table ++ stack last f ∷ []) e.prefix (caller e.instruction_ptr)) a
            (PrefixIs-Extends last _ x h)

  -- One frame.
  pub Lands-IsTree :
      {table table' : StackTable} {last : Option ℕ} {i j : ℕ} {f : ProcessMemoryAddress}
      {fs : List ProcessMemoryAddress}
      → IsTree table
      → IsWithin last table
      → PrefixIs table last (caller f)
      → StartsAt last i
      → StackOf table last fs
      → Lands table last i f j table'
      → IsTree table' × StackOf table' (some j) (f ∷ fs)
  Lands-IsTree {table} {last} {j} {f} {fs} t w h s so (hit e le at is n same) =
      subst (λ u. IsTree u × StackOf u (some j) (f ∷ fs)) (sym same)
        (
          t,
          above e at is
              (subst (λ p. StackOf table p fs) (sym (prefix_of_entry last f j e t h at is)) so),
        )
  Lands-IsTree {table} {last} {i} {f} {fs} t w h s so (miss n end grown) =
      let lands : Lands table last i f (length table) (table ++ stack last f ∷ []) =
        miss n refl refl in
      rw (grown, end)
        (
          grown-IsTree last f t (Lands-IsWellOrdered t.ordered w lands) (Lands-Extends lands) h
              (absent last i f t h s n),
          above (stack last f) (get_elem?-append_last table (stack last f)) refl
              (StackOf-Extends (Lands-Extends lands) so),
        )
