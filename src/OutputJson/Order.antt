-- ===== src/OutputJson/Order.antt =====
-- The order in which the calls of examples/output-json.rs return, and what it prints.
use profiler_rs.BufferThread.{SerializationMessage, serialize, sample_count, one_sample_received}
use profiler_rs.Core.{
  MainThreadCore, Request, ask_sample_count, ask_serialize, ask_one_sample, Answer, counted,
  profiled, sampled, accept, CoreState, ready, awaiting, confused, disconnected, BufferState, alive,
  gone, System, produce, ask, buffer_round, finish, receive, producing, asking, handling, receiving,
  step,
}
use profiler_rs.Core.Covers.{SystemCovers, step-Covers}
use profiler_rs.Core.Moves.{Inv}
use profiler_rs.Core.Quiet.{IsQuiet-kept, produce-IsQuiet, buffer_round-IsQuiet}
use profiler_rs.Core.Rounds.{step-Inv}
use profiler_rs.Json.{Json}
use profiler_rs.OutputJson.{
  Turn, main_moves, sends, handles, Program, main_step, take_turn, run_main,
}
use profiler_rs.Prelude.{
  ℕ, zero, suc, ◌≡◌, refl, List, [], ◌∷◌, ◌++◌, Option, none, some, replicate, ap, sym, ◌∙◌, subst,
}

-- The first list in reverse in front of the second.
abbrev pub onto {ℓ} : {A : Type ℓ} → List A → List A → List A
onto [] ys = ys
onto (x ∷ xs) ys = onto xs (x ∷ ys)

replicate_shift {ℓ} :
    {A : Type ℓ} (n : ℕ) (x : A) (ys : List A) → replicate n x ++ x ∷ ys ≡ x ∷ replicate n x ++ ys
replicate_shift zero x ys = refl
replicate_shift (suc n) x ys = ap (◌∷◌ x) (replicate_shift n x ys)

pub onto-replicate {ℓ} :
    {A : Type ℓ} (n : ℕ) (x : A) (ys zs : List A)
    → onto (replicate n x ++ ys) zs ≡ onto ys (replicate n x ++ zs)
onto-replicate zero x ys zs = refl
onto-replicate (suc n) x ys zs =
    onto-replicate n x ys (x ∷ zs) ∙ ap (onto ys) (replicate_shift n x zs)

pub onto-onto {ℓ} : {A : Type ℓ} (xs ys zs : List A) → onto (onto xs ys) zs ≡ onto ys (xs ++ zs)
onto-onto [] ys zs = refl
onto-onto (x ∷ xs) ys zs = onto-onto xs (x ∷ ys) zs

module _ (J : Json) where
  abbrev pub kind_of : Answer J → Request
  kind_of (counted _) = ask_sample_count
  kind_of (profiled _) = ask_serialize
  kind_of sampled = ask_one_sample

  -- The requests that were answered, the last one first.
  abbrev pub kinds : List (ℕ × Answer J) → List Request
  kinds [] = []
  kinds ((_, a) ∷ rest) = kind_of a ∷ kinds rest

  -- What was answered, what is open and what is still to come make up the script.
  abbrev pub IsOnScript : List Request → CoreState J → List (ℕ × Answer J) → List Request → Type 0
  IsOnScript script ready answers rest = onto (kinds answers) rest ≡ script
  IsOnScript script (awaiting r _) answers rest = onto (r ∷ kinds answers) rest ≡ script
  IsOnScript script confused answers rest = Unit
  IsOnScript script disconnected answers rest = Unit

  accept-kind_of :
      (r : Request) (m : SerializationMessage J) (a : Answer J)
      → accept J r m ≡ some a
      → kind_of a ≡ r
  unfolding accept
  accept-kind_of ask_sample_count (sample_count n) a e =
      let same : counted n ≡ a = cc in ap kind_of (sym same)
  accept-kind_of ask_sample_count (serialize _) a e = cc
  accept-kind_of ask_sample_count one_sample_received a e = cc
  accept-kind_of ask_serialize (serialize v) a e =
      let same : profiled v ≡ a = cc in ap kind_of (sym same)
  accept-kind_of ask_serialize (sample_count _) a e = cc
  accept-kind_of ask_serialize one_sample_received a e = cc
  accept-kind_of ask_one_sample one_sample_received a e =
      let same : sampled ≡ a = cc in ap kind_of (sym same)
  accept-kind_of ask_one_sample (serialize _) a e = cc
  accept-kind_of ask_one_sample (sample_count _) a e = cc

  module _ (script : List Request) where
    abbrev Follows : System J → List Request → Type 0
    Follows s rest = IsOnScript script s.core s.answers rest

    -- `main` makes its next call.
    ask-Follows :
        (buffer : BufferState J) (c : MainThreadCore) (r : Request) (s : System J)
        (rest : List Request)
        → onto (kinds s.answers) (r ∷ rest) ≡ script
        → Follows (ask J ready buffer c r s) rest
    unfolding ask
    ask-Follows (alive _) c r s rest f = f
    ask-Follows gone c r s rest f = tt

    finish-Follows :
        (s : System J) (r : Request) (asked : ℕ) (left : List (SerializationMessage J))
        (o : Option (Answer J)) (rest : List Request)
        → ((a : Answer J) → o ≡ some a → kind_of a ≡ r)
        → onto (r ∷ kinds s.answers) rest ≡ script
        → Follows (finish J s asked left o) rest
    unfolding finish
    finish-Follows s r asked left none rest same f = tt
    finish-Follows s r asked left (some a) rest same f =
        ap (λ k. onto (k ∷ kinds s.answers) rest) (same a refl) ∙ f

    -- `main` waits for its reply.
    receive-Follows :
        (r : Request) (asked : ℕ) (buffer : BufferState J) (replies : List (SerializationMessage J))
        (s : System J) (rest : List Request)
        → s.core ≡ awaiting r asked
        → onto (r ∷ kinds s.answers) rest ≡ script
        → Follows (receive J (awaiting r asked) buffer replies s) rest
    unfolding receive
    receive-Follows r asked buffer (m ∷ left) s rest at f =
        finish-Follows s r asked left (accept J r m) rest (accept-kind_of r m) f
    receive-Follows r asked gone [] s rest at f = tt
    receive-Follows r asked (alive _) [] s rest at f =
        subst (λ c. IsOnScript script c s.answers rest) (sym at) f

    main_step-Follows :
        (pid : ℕ) (c : MainThreadCore) (core : CoreState J) (rest : List Request) (s : System J)
        → s.core ≡ core
        → IsOnScript script core s.answers rest
        → let p = main_step J pid c core rest s in Follows p.system p.rest
    unfolding main_step step
    main_step-Follows pid c ready [] s at f =
        subst (λ x. IsOnScript script x s.answers []) (sym at) f
    main_step-Follows pid c ready (r ∷ rs) s at f =
        subst (λ x. Follows (ask J x s.buffer c r s) rs) (sym at) (ask-Follows s.buffer c r s rs f)
    main_step-Follows pid c (awaiting r asked) rs s at f =
        subst (λ x. Follows (receive J x s.buffer s.replies s) rs) (sym at)
          (receive-Follows r asked s.buffer s.replies s rs at f)
    main_step-Follows pid c confused rs s at f =
        subst (λ x. IsOnScript script x s.answers rs) (sym at) tt
    main_step-Follows pid c disconnected rs s at f =
        subst (λ x. IsOnScript script x s.answers rs) (sym at) tt

    -- With the invariants of the core.
    abbrev pub IsSound : Program J → Type 0
    IsSound p = Follows p.system p.rest × Inv J p.system × SystemCovers J p.system

    main_step-kept :
        (pid : ℕ) (c : MainThreadCore) (core : CoreState J) (rest : List Request) (s : System J)
        → Inv J s
        → SystemCovers J s
        → let t = (main_step J pid c core rest s).system in Inv J t × SystemCovers J t
    unfolding main_step
    main_step-kept pid c ready [] s i v = (i, v)
    main_step-kept pid c ready (r ∷ rs) s i v =
        (step-Inv J pid s (asking c r) i, step-Covers J pid s (asking c r) i v)
    main_step-kept pid c (awaiting _ _) rs s i v =
        (step-Inv J pid s receiving i, step-Covers J pid s receiving i v)
    main_step-kept pid c confused rs s i v = (i, v)
    main_step-kept pid c disconnected rs s i v = (i, v)

    take_turn-IsSound :
        (pid : ℕ) (p : Program J) (t : Turn J) → IsSound p → IsSound (take_turn J pid p t)
    unfolding take_turn step
    take_turn-IsSound pid p (main_moves c) (f, i, v) =
        let (i', v') = main_step-kept pid c p.system.core p.rest p.system i v in
        (main_step-Follows pid c p.system.core p.rest p.system refl f, i', v')
    take_turn-IsSound pid p (sends x) (f, i, v) = (
      IsQuiet-kept J (λ c answers. IsOnScript script c answers p.rest) p.system
          (produce J p.system.buffer x p.system) (produce-IsQuiet J p.system.buffer x p.system) f,
      step-Inv J pid p.system (producing x) i,
      step-Covers J pid p.system (producing x) i v,
    )
    take_turn-IsSound pid p (handles now) (f, i, v) = (
      IsQuiet-kept J (λ c answers. IsOnScript script c answers p.rest) p.system
          (buffer_round J pid now p.system.buffer p.system.queue p.system)
          (buffer_round-IsQuiet J pid now p.system.buffer p.system.queue p.system) f,
      step-Inv J pid p.system (handling now) i,
      step-Covers J pid p.system (handling now) i v,
    )

    pub run_main-IsSound :
        (pid : ℕ) (p : Program J) (ts : List (Turn J)) → IsSound p → IsSound (run_main J pid p ts)
    unfolding run_main
    run_main-IsSound pid p [] sound = sound
    run_main-IsSound pid p (t ∷ ts) sound =
        run_main-IsSound pid (take_turn J pid p t) ts (take_turn-IsSound pid p t sound)
