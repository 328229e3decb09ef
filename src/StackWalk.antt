-- ===== src/StackWalk.antt =====
-- The stack walk of src/sampler_mac.rs, `critical_frame_pointer_stack_walk`. The memory of the
-- process is an argument: a read at an address gives a word of 8 bytes, or none where nothing is
-- mapped, which ends the process. The bounds of the stack that libpthread returns are arguments.
pub mod Chains
mod Fuel
pub mod Rounds
mod Tests
use profiler_rs.NativeStack
use profiler_rs.NativeStack.{NativeStack, max_native_frames, add_register_to_stack}
use profiler_rs.Prelude.{
  ℕ, zero, suc, ◌+◌, ◌*◌, ◌%◌, Option, none, some, Result, ok, err, ltb, leb, ◌==◌, if◌then◌else◌,
}

-- `Registers` of src/sampler.rs.
pub record Registers : Type 0 where
  pub instruction_ptr : ℕ
  pub stack_ptr : ℕ
  pub frame_ptr : ℕ

abbrev pub Memory : Type 0
Memory = ℕ → Option ℕ

-- How a round of the walk ends.
pub data Step : Type 0 where
  done : NativeStack → Step
  follow : ℕ → NativeStack → Step
  segfault : Step

pub data WalkFault : Type 0 where
  segmentation_fault out_of_fuel : WalkFault

-- The check of the next frame pointer, behind the result of `add_register_to_stack`.
pub check_next : (current_fp next_fp : ℕ) → Result (Unit {0}) (Unit {0}) × NativeStack → Step
check_next current_fp next_fp (err _, s) = done s
check_next current_fp next_fp (ok _, s) =
    if leb next_fp current_fp then done s else if next_fp % 4 == 0 then follow next_fp s else done s

-- The reads of one frame: the next frame pointer, the instruction pointer and the stack pointer.
pub read_frame : Memory → (current_fp : ℕ) → NativeStack → Step
unfolding check_next
read_frame memory current_fp s = elim (memory current_fp) [
  | none ↦ segfault
  | some next_fp ↦ elim (memory (current_fp + 8)) [
    | none ↦ segfault
    | some instruction_ptr ↦ elim (memory (current_fp + 16)) [
      | none ↦ segfault
      | some stack_ptr ↦
          check_next current_fp next_fp (add_register_to_stack s instruction_ptr stack_ptr)
    ]
  ]
]

-- One round of the `while` loop.
pub walk_round : Memory → (stack_min stack_max current_fp : ℕ) → NativeStack → Step
unfolding read_frame
walk_round memory stack_min stack_max current_fp s =
    if current_fp == 0
    then done s
    else if ltb current_fp stack_min
    then done s
    else if leb stack_max current_fp
    then done s
    else read_frame memory current_fp s

pub walk :
    (fuel : ℕ)
    → Memory
    → (stack_min stack_max current_fp : ℕ) → NativeStack
    → Result NativeStack WalkFault
walk zero memory stack_min stack_max current_fp s = err out_of_fuel
walk (suc fuel) memory stack_min stack_max current_fp s =
    elim (walk_round memory stack_min stack_max current_fp s) [
      | done s' ↦ ok s'
      | follow next_fp s' ↦ walk fuel memory stack_min stack_max next_fp s'
      | segfault ↦ err segmentation_fault
    ]

-- Every round that goes on fills a place of the stack, so one more than the places is enough fuel.
pub critical_frame_pointer_stack_walk :
    Memory → (stack_address_min stacksize : ℕ) → Registers → Result NativeStack WalkFault
critical_frame_pointer_stack_walk memory stack_address_min stacksize registers =
    walk (max_native_frames + 1) memory stack_address_min (stack_address_min + stacksize * 8)
      registers.frame_ptr
      (add_register_to_stack NativeStack.new registers.instruction_ptr registers.stack_ptr).1
