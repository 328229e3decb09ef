-- ===== src/StackWalk/Tests.antt =====
-- The stack walk of src/sampler_mac.rs at the memory layout that its comment draws.
use profiler_rs.Address
use profiler_rs.Address.{ProcessMemoryAddress}
use profiler_rs.NativeStack.{NativeStack}
use profiler_rs.NativeStack.Capacity.{Holds}
use profiler_rs.Prelude.{ℕ, ◌≡◌, refl, List, ◌∷◌, some, none, ok, err, ◌⊎◌, ◌==◌, if◌then◌else◌}
use profiler_rs.StackWalk.{Registers, Memory, segmentation_fault, critical_frame_pointer_stack_walk}
use profiler_rs.StackWalk.Fuel.{critical_frame_pointer_stack_walk-Ended}
use profiler_rs.StackWalk.Rounds.{Chain}
use profiler_rs.StackWalk.Chains.{critical_frame_pointer_stack_walk-Chain}

abbrev word : ℕ → ℕ
word a =
    if a == 0x410
    then 0x530
    else if a == 0x418
    then 0x4246693
    else if a == 0x530
    then 0x990
    else if a == 0x538
    then 0x3858745
    else 0

abbrev test_memory : Memory
test_memory a = some (word a)

abbrev test_registers : Registers
test_registers = record { instruction_ptr = 0x4246000; stack_ptr = 0x400; frame_ptr = 0x410 }

-- The stack lies between 0x400 and 0xa00.
critical_frame_pointer_stack_walk-Chain_example :
    (s : NativeStack) × (ips sps : List ProcessMemoryAddress) × (critical_frame_pointer_stack_walk
        test_memory 0x400 0xc0 test_registers
      ≡ ok s)
    × Chain test_memory 0x400 0xa00 1023 0x410 ips sps
    × Holds (Address.new 0x4246000 ∷ ips) (Address.new 0x400 ∷ sps) s
critical_frame_pointer_stack_walk-Chain_example =
    critical_frame_pointer_stack_walk-Chain test_memory 0x400 0xc0 test_registers
      (λ a from to. (word a, refl))

-- Nothing is mapped.
critical_frame_pointer_stack_walk-Ended_example :
    ((s : NativeStack) × (critical_frame_pointer_stack_walk (λ a. none) 0x400 0xc0 test_registers
        ≡ ok s))
    ⊎ (critical_frame_pointer_stack_walk (λ a. none) 0x400 0xc0 test_registers
        ≡ err segmentation_fault)
critical_frame_pointer_stack_walk-Ended_example =
    critical_frame_pointer_stack_walk-Ended (λ a. none) 0x400 0xc0 test_registers
