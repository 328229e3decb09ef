-- ===== src/NativeStack.antt =====
-- `NativeStack` of src/sampler.rs: two arrays of `MAX_NATIVE_FRAMES` addresses, of which the first
-- `count` are in use.
pub mod Capacity
mod Tests
use profiler_rs.Address
use profiler_rs.Address.{ProcessMemoryAddress}
use profiler_rs.Prelude.{
  ℕ, ◌+◌, List, [], Bool, not, Result, ok, err, ltb, set, replicate, if◌then◌else◌,
}

unfoldable pub max_native_frames : ℕ
max_native_frames = 1024

pub record NativeStack : Type 0 where
  pub instruction_ptrs : List ProcessMemoryAddress
  pub stack_ptrs : List ProcessMemoryAddress
  pub count : ℕ

unfoldable pub new : NativeStack
new = record {
  instruction_ptrs = replicate max_native_frames Address.null;
  stack_ptrs = replicate max_native_frames Address.null;
  count = 0;
}

-- The result, and the stack after the call.
unfoldable pub add_register_to_stack :
    NativeStack → (instruction_ptr stack_ptr : ℕ) → Result (Unit {0}) (Unit {0}) × NativeStack
add_register_to_stack s instruction_ptr stack_ptr =
    if not (ltb s.count max_native_frames) then (err tt, s) else (
      ok tt,
      record {
        instruction_ptrs = set s.instruction_ptrs s.count (Address.new instruction_ptr);
        stack_ptrs = set s.stack_ptrs s.count (Address.new stack_ptr);
        count = s.count + 1;
      },
    )
