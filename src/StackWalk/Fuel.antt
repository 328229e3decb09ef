-- ===== src/StackWalk/Fuel.antt =====
-- The fuel of the walk in src/sampler_mac.rs, whatever the memory holds.
use native.Mathlib.Decide.{dec_lt}
use profiler_rs.Address
use profiler_rs.Address.{ProcessMemoryAddress}
use profiler_rs.NativeStack
use profiler_rs.NativeStack.{NativeStack, max_native_frames, add_register_to_stack}
use profiler_rs.NativeStack.Capacity.{Holds, new-Holds, add_register_to_stack-Holds}
use profiler_rs.Prelude.{
  Bool, ℕ, zero, suc, ◌+◌, ◌*◌, ◌%◌, ◌<◌, ◌≡◌, refl, List, [], ◌∷◌, ◌++◌, Result, ok, err, true,
  false, arith, length, length-append, ltb, leb, ◌==◌, if◌then◌else◌, Option-cases, ◌⊎◌, inl, inr,
  sym, subst,
}
use profiler_rs.StackWalk.{
  Registers, Memory, Step, done, follow, segfault, segmentation_fault, WalkFault, check_next,
  read_frame, walk_round, walk, critical_frame_pointer_stack_walk,
}

-- A stack that holds so many frames.
abbrev HasFrames : ℕ → NativeStack → Type 0
HasFrames n s = (ips sps : List ProcessMemoryAddress) × Holds ips sps s × (length ips ≡ n)

-- A round that goes on has filled a place.
abbrev Fills : ℕ → Step → Type 0
Fills n (done _) = Unit
Fills n (follow _ s) = (n < max_native_frames) × HasFrames (suc n) s
Fills n segfault = Unit

Fills-if : (n : ℕ) (b : Bool) (x y : Step) → Fills n x → Fills n y → Fills n (if b then x else y)
Fills-if n true x y h k = h
Fills-if n false x y h k = k

check_next-Fills :
    (n fp next ip sp : ℕ) (s : NativeStack)
    → HasFrames n s
    → Fills n (check_next fp next (add_register_to_stack s ip sp))
unfolding check_next
check_next-Fills n fp next ip sp s (ips, sps, h, len) = elim (dec_lt n max_native_frames) [
  | yes room ↦
      let (added, h') = (add_register_to_stack-Holds ips sps s ip sp h).0 (omega arith) in
      let place : HasFrames (suc n) (add_register_to_stack s ip sp).1 = (
        ips ++ Address.new ip ∷ [],
        sps ++ Address.new sp ∷ [],
        h',
        omega (arith, length-append ips (Address.new ip ∷ [])),
      ) in
      subst (λ r. Fills n (check_next fp next (r, (add_register_to_stack s ip sp).1))) (sym added)
        (Fills-if n (leb next fp) _ _ tt (Fills-if n (next % 4 == 0) _ _ (room, place) tt))
  | no full ↦
      let (failed, same) =
        (add_register_to_stack-Holds ips sps s ip sp h).1 (omega (arith, h.fits)) in
      subst (λ r. Fills n (check_next fp next (r, (add_register_to_stack s ip sp).1))) (sym failed)
        tt
]

read_frame-Fills :
    (memory : Memory) (n fp : ℕ) (s : NativeStack)
    → HasFrames n s
    → Fills n (read_frame memory fp s)
unfolding read_frame
read_frame-Fills memory n fp s h = elim (Option-cases (memory fp)) [
  | inl e ↦ rw (e, read_frame) tt
  | inr (next, e) ↦ elim (Option-cases (memory (fp + 8))) [
    | inl e' ↦ rw (e, read_frame) (rw (e', read_frame) tt)
    | inr (ip, e') ↦ elim (Option-cases (memory (fp + 16))) [
      | inl e'' ↦ rw (e, read_frame) (rw (e', read_frame) (rw (e'', read_frame) tt))
      | inr (sp, e'') ↦
          rw (e, read_frame)
            (rw (e', read_frame) (rw (e'', read_frame) (check_next-Fills n fp next ip sp s h)))
    ]
  ]
]

walk_round-Fills :
    (memory : Memory) (low high n fp : ℕ) (s : NativeStack)
    → HasFrames n s
    → Fills n (walk_round memory low high fp s)
unfolding walk_round
walk_round-Fills memory low high n fp s h = Fills-if n (fp == 0) _ _ tt (
    Fills-if n (ltb fp low) _ _ tt
      (Fills-if n (leb high fp) _ _ tt (read_frame-Fills memory n fp s h)))

-- A walk that ended by itself.
abbrev Ended : Result NativeStack WalkFault → Type 0
Ended r = ((s : NativeStack) × (r ≡ ok s)) ⊎ (r ≡ err segmentation_fault)

walk-Ended :
    (memory : Memory) (low high fuel n fp : ℕ) (s : NativeStack)
    → max_native_frames < n + fuel
    → HasFrames n s
    → Ended (walk fuel memory low high fp s)
unfolding walk
walk-Ended memory low high zero n fp s enough (ips, sps, h, len) = absurd (omega (arith, h.fits))
walk-Ended memory low high (suc fuel) n fp s enough h =
    after (walk_round memory low high fp s) (walk_round-Fills memory low high n fp s h)
      (λ next t room h'. walk-Ended memory low high fuel (suc n) next t (omega arith) h')
  where
    after :
        (step : Step)
        → Fills n step
        → ((next : ℕ) (t : NativeStack)
            → n < max_native_frames
            → HasFrames (suc n) t
            → Ended (walk fuel memory low high next t))
        → Ended (elim step [
          | done s' ↦ ok s'
          | follow next_fp s' ↦ walk fuel memory low high next_fp s'
          | segfault ↦ err segmentation_fault
        ])
    after (done s') f later = inl (s', refl)
    after (follow next t) (room, h') later = later next t room h'
    after segfault f later = inr refl

-- Whatever the memory holds and wherever the stack's bounds are, the walk ends by itself: it returns a
-- stack, or reads an address that is not mapped. The fuel never runs out.
pub critical_frame_pointer_stack_walk-Ended :
    (memory : Memory) (stack_min stacksize : ℕ) (registers : Registers)
    → ((s : NativeStack) × (critical_frame_pointer_stack_walk memory stack_min stacksize registers
          ≡ ok s))
      ⊎ (critical_frame_pointer_stack_walk memory stack_min stacksize registers
          ≡ err segmentation_fault)
unfolding critical_frame_pointer_stack_walk max_native_frames
critical_frame_pointer_stack_walk-Ended memory stack_min stacksize registers =
    let (_, held) =
      (add_register_to_stack-Holds [] [] NativeStack.new registers.instruction_ptr
          registers.stack_ptr new-Holds).0
        (omega arith) in
    walk-Ended memory stack_min (stack_min + stacksize * 8) (max_native_frames + 1) 1
      registers.frame_ptr _ (omega arith) (_, _, held, refl)
