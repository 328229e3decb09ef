-- ===== src/StackWalk/Rounds.antt =====
-- The chain of frames in memory, and one round of the walk of src/sampler_mac.rs.
use native.Mathlib.Decide.{dec_lt}
use profiler_rs.Address
use profiler_rs.Address.{ProcessMemoryAddress}
use profiler_rs.NativeStack.{NativeStack, add_register_to_stack}
use profiler_rs.Prelude.{
  ℕ, suc, ◌+◌, ◌%◌, ◌≤◌, ◌<◌, ◌≡◌, ◌≢◌, refl, List, [], ◌∷◌, some, ok, false, arith, ltb, leb, ◌==◌,
  Bool-cases, ◌⊎◌, inl, inr,
}
use profiler_rs.StackWalk.{Memory, done, follow, check_next, read_frame, walk_round}

-- Every word that a frame in the stack can ask for is mapped.
abbrev pub IsMapped : Memory → ℕ → ℕ → Type 0
IsMapped memory low high = (a : ℕ) → low ≤ a → a < high + 16 → (v : ℕ) × (memory a ≡ some v)

-- A frame pointer that is not null and points into the stack.
abbrev pub InStack : ℕ → ℕ → ℕ → Type 0
InStack low high fp = (fp ≢ 0) × (low ≤ fp) × (fp < high)

-- What the memory holds at a frame pointer.
pub record FrameAt (memory : Memory) (fp next ip sp : ℕ) : Type 0 where
  pub next_fp : memory fp ≡ some next
  pub instruction_ptr : memory (fp + 8) ≡ some ip
  pub stack_ptr : memory (fp + 16) ≡ some sp

-- A next frame pointer that is followed: it is higher, and aligned to 4 bytes.
abbrev pub GoesOn : ℕ → ℕ → Type 0
GoesOn fp next = (fp < next) × (next % 4 ≡ 0)

-- The frames from a frame pointer on, with room for so many, and why they end.
pub data Chain (memory : Memory) (low high : ℕ)
    : (room fp : ℕ) → List ProcessMemoryAddress → List ProcessMemoryAddress → Type 0 where
  outside : {room fp : ℕ} → ¬ InStack low high fp → Chain memory low high room fp [] []
  full : {fp : ℕ} → InStack low high fp → Chain memory low high 0 fp [] []
  last :
      {room fp next ip sp : ℕ}
      → InStack low high fp
      → FrameAt memory fp next ip sp
      → ¬ GoesOn fp next
      → Chain memory low high (suc room) fp (Address.new ip ∷ []) (Address.new sp ∷ [])
  linked :
      {room fp next ip sp : ℕ} {ips sps : List ProcessMemoryAddress}
      → InStack low high fp
      → FrameAt memory fp next ip sp
      → GoesOn fp next
      → Chain memory low high room next ips sps
      → Chain memory low high (suc room) fp (Address.new ip ∷ ips) (Address.new sp ∷ sps)

module _ (memory : Memory) (low high : ℕ) (mapped : IsMapped memory low high) where
  pub walk_round-outside :
      (fp : ℕ) (s : NativeStack) → ¬ InStack low high fp → walk_round memory low high fp s ≡ done s
  unfolding walk_round
  walk_round-outside fp s out = ground arith

  read_frame-check :
      {fp next ip sp : ℕ} (s : NativeStack)
      → FrameAt memory fp next ip sp
      → read_frame memory fp s ≡ check_next fp next (add_register_to_stack s ip sp)
  unfolding read_frame
  read_frame-check s f =
      rw (f.next_fp, read_frame)
        (rw (f.instruction_ptr, read_frame) (rw (f.stack_ptr, read_frame) refl))

  pub walk_round-inside :
      (fp next ip sp : ℕ) (s : NativeStack)
      → InStack low high fp
      → FrameAt memory fp next ip sp
      → walk_round memory low high fp s ≡ check_next fp next (add_register_to_stack s ip sp)
  unfolding walk_round read_frame
  walk_round-inside fp next ip sp s (some_fp, from, to) f =
      let not_null : (fp == 0) ≡ false = ground arith in
      let above : ltb fp low ≡ false = ground arith in
      let below : leb high fp ≡ false = ground arith in
      rw (not_null, above, below) (read_frame-check s f)

  pub frame_at : (fp : ℕ) → InStack low high fp → (next ip sp : ℕ) × FrameAt memory fp next ip sp
  frame_at fp (_, from, to) =
      let (next, is) = mapped fp from (omega arith) in
      let (ip, is') = mapped (fp + 8) (omega arith) (omega arith) in
      let (sp, is'') = mapped (fp + 16) (omega arith) (omega arith) in
      (next, ip, sp, record { next_fp = is; instruction_ptr = is'; stack_ptr = is'' })

  pub inside_cases : (fp : ℕ) → InStack low high fp ⊎ (¬ InStack low high fp)
  inside_cases fp = elim (dec_lt 0 fp) [
    | no null ↦ inr (λ h. h.0 (omega arith))
    | yes some_fp ↦ elim (dec_lt fp low) [
      | yes under ↦ inr (λ h. absurd (omega (arith, h.1)))
      | no not_under ↦ elim (dec_lt fp high) [
        | yes inside ↦ inl ((λ e. absurd (omega arith)), omega arith, inside)
        | no above ↦ inr (λ h. above h.2)
      ]
    ]
  ]

  pub check_next-ok :
      (fp next : ℕ) (s : NativeStack)
      → (GoesOn fp next → check_next fp next (ok tt, s) ≡ follow next s)
        × ((¬ GoesOn fp next) → check_next fp next (ok tt, s) ≡ done s)
  unfolding check_next
  check_next-ok fp next s = ((λ h. ground arith), λ h. ground arith)

  pub goes_cases : (fp next : ℕ) → GoesOn fp next ⊎ (¬ GoesOn fp next)
  goes_cases fp next = elim (dec_lt fp next) [
    | no h ↦ inr (λ g. h g.0)
    | yes h ↦ elim (Bool-cases (next % 4 == 0)) [
      | inl e ↦ inl (h, ground arith)
      | inr e ↦ inr (λ g. ground arith)
    ]
  ]
