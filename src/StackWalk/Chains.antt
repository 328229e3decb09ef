-- ===== src/StackWalk/Chains.antt =====
-- The stack that the walk of src/sampler_mac.rs collects.
use profiler_rs.Address
use profiler_rs.Address.{ProcessMemoryAddress}
use profiler_rs.NativeStack
use profiler_rs.NativeStack.{NativeStack, max_native_frames, add_register_to_stack}
use profiler_rs.NativeStack.Capacity.{Holds, new-Holds, add_register_to_stack-Holds}
use profiler_rs.Prelude.{
  ℕ, zero, suc, ◌+◌, ◌*◌, ◌<◌, ◌≡◌, refl, List, [], ◌∷◌, ◌++◌, ok, arith, length, length-append,
  inl, inr, ap, sym, ◌∙◌, subst, append_assoc, append-nil,
}
use profiler_rs.StackWalk.{
  Registers, Memory, done, follow, check_next, walk_round, walk, critical_frame_pointer_stack_walk,
}
use profiler_rs.StackWalk.Rounds.{
  IsMapped, InStack, FrameAt, Chain, outside, full, last, linked, walk_round-outside,
  walk_round-inside, frame_at, inside_cases, check_next-ok, goes_cases,
}

module _ (memory : Memory) (low high : ℕ) (mapped : IsMapped memory low high) where
  -- What the walk gives from a frame pointer on.
  abbrev WalksTo :
      (room fuel fp : ℕ)
      → NativeStack
      → List ProcessMemoryAddress
      → List ProcessMemoryAddress
      → Type 0
  WalksTo room fuel fp s ips sps =
      (s' : NativeStack) × (ips' sps' : List ProcessMemoryAddress) × (walk fuel memory low high fp s
        ≡ ok s')
      × Chain memory low high room fp ips' sps'
      × Holds (ips ++ ips') (sps ++ sps') s'

  stops :
      {room fp : ℕ} (fuel : ℕ) (s : NativeStack) (ips sps : List ProcessMemoryAddress)
      → walk_round memory low high fp s ≡ done s
      → Chain memory low high room fp [] []
      → Holds ips sps s
      → WalksTo room (suc fuel) fp s ips sps
  unfolding walk
  stops fuel s ips sps run chain h = (
    s,
    [],
    [],
    rw (run, walk) refl,
    chain,
    subst (λ l. Holds l (sps ++ []) s) (sym (append-nil ips))
        (subst (λ l. Holds ips l s) (sym (append-nil sps)) h),
  )

  -- A round at a frame, given what the shorter walks do.
  walk_frame :
      (room fuel fp next ip sp : ℕ) (s : NativeStack) (ips sps : List ProcessMemoryAddress)
      → ((room next : ℕ) (s : NativeStack) (ips sps : List ProcessMemoryAddress)
          → room < fuel
          → length ips + room ≡ max_native_frames
          → Holds ips sps s
          → WalksTo room fuel next s ips sps)
      → room < suc fuel
      → length ips + room ≡ max_native_frames
      → InStack low high fp
      → FrameAt memory fp next ip sp
      → Holds ips sps s
      → WalksTo room (suc fuel) fp s ips sps
  unfolding walk check_next
  walk_frame zero fuel fp next ip sp s ips sps shorter enough count inside f h =
      let (failed, same) = (add_register_to_stack-Holds ips sps s ip sp h).1 (omega arith) in
      let run : walk_round memory low high fp s ≡ done s =
        walk_round-inside memory low high mapped fp next ip sp s inside f
        ∙ (ap (λ r. check_next fp next (r, (add_register_to_stack s ip sp).1)) failed
            ∙ ap done same) in
      stops fuel s ips sps run (full inside) h
  walk_frame (suc room) fuel fp next ip sp s ips sps shorter enough count inside f h =
      let (added, h') = (add_register_to_stack-Holds ips sps s ip sp h).0 (omega arith) in
      let begun =
        walk_round-inside memory low high mapped fp next ip sp s inside f
        ∙ ap (λ r. check_next fp next (r, (add_register_to_stack s ip sp).1)) added in
      elim (goes_cases memory low high mapped fp next) [
        | inr ends ↦
            let run : walk_round memory low high fp s ≡ done (add_register_to_stack s ip sp).1 =
              begun
              ∙ (check_next-ok memory low high mapped fp next (add_register_to_stack s ip sp).1).1
                  ends in
            (
              (add_register_to_stack s ip sp).1,
              Address.new ip ∷ [],
              Address.new sp ∷ [],
              rw (run, walk) refl,
              last inside f ends,
              h',
            )
        | inl goes ↦
            let run : walk_round memory low high fp s
                ≡ follow next (add_register_to_stack s ip sp).1 =
              begun
              ∙ (check_next-ok memory low high mapped fp next (add_register_to_stack s ip sp).1).0
                  goes in
            let (t, ips', sps', rest, chain, held) =
              shorter room next (add_register_to_stack s ip sp).1 (ips ++ Address.new ip ∷ [])
                (sps ++ Address.new sp ∷ []) (omega arith)
                (omega (arith, length-append ips (Address.new ip ∷ []))) h' in
            (
              t,
              Address.new ip ∷ ips',
              Address.new sp ∷ sps',
              rw (run, walk) rest,
              linked inside f goes chain,
              subst (λ l. Holds l (sps ++ Address.new sp ∷ sps') t)
                  (append_assoc ips (Address.new ip ∷ []) ips')
                  (subst (λ l. Holds ((ips ++ Address.new ip ∷ []) ++ ips') l t)
                    (append_assoc sps (Address.new sp ∷ []) sps') held),
            )
      ]

  walk-Chain :
      (room fuel fp : ℕ) (s : NativeStack) (ips sps : List ProcessMemoryAddress)
      → room < fuel
      → length ips + room ≡ max_native_frames
      → Holds ips sps s
      → WalksTo room fuel fp s ips sps
  unfolding walk
  walk-Chain room zero fp s ips sps enough count h = absurd (omega arith)
  walk-Chain room (suc fuel) fp s ips sps enough count h =
      elim (inside_cases memory low high mapped fp) [
        | inr out ↦
            stops fuel s ips sps (walk_round-outside memory low high mapped fp s out) (outside out)
              h
        | inl inside ↦
            let (next, ip, sp, f) = frame_at memory low high mapped fp inside in
            walk_frame room fuel fp next ip sp s ips sps
              (λ room next s ips sps. walk-Chain room fuel next s ips sps) enough count inside f h
      ]

-- When every word between the stack's bounds, and two words behind, is mapped, the walk returns: it
-- does not read outside and it ends. The stack that it returns holds the registers' instruction and
-- stack pointer, and behind them those of the frames that the chain of frame pointers links, leaf
-- first, at most 1024 in all: each frame lies in the stack, each next frame is higher and aligned, and
-- the chain ends at the first pointer outside, at the first that is not, or when there is no room.
pub critical_frame_pointer_stack_walk-Chain :
    (memory : Memory) (stack_min stacksize : ℕ) (registers : Registers)
    → IsMapped memory stack_min (stack_min + stacksize * 8)
    → (s : NativeStack) × (ips sps : List ProcessMemoryAddress) × (critical_frame_pointer_stack_walk
          memory stack_min stacksize registers
        ≡ ok s)
      × Chain memory stack_min (stack_min + stacksize * 8) 1023 registers.frame_ptr ips sps
      × Holds
          (Address.new registers.instruction_ptr ∷ ips)
          (Address.new registers.stack_ptr ∷ sps)
          s
unfolding critical_frame_pointer_stack_walk max_native_frames
critical_frame_pointer_stack_walk-Chain memory stack_min stacksize registers mapped =
    let (_, held) =
      (add_register_to_stack-Holds [] [] NativeStack.new registers.instruction_ptr
          registers.stack_ptr new-Holds).0
        (omega arith) in
    walk-Chain memory stack_min (stack_min + stacksize * 8) mapped 1023 1025 registers.frame_ptr
      (add_register_to_stack NativeStack.new registers.instruction_ptr registers.stack_ptr).1
      (Address.new registers.instruction_ptr ∷ []) (Address.new registers.stack_ptr ∷ [])
      (omega arith) refl held
