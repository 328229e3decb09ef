-- ===== src/SamplesSerializer.antt =====
-- `SamplesSerializer::new` of src/sampler.rs: the table of stacks that is built from the samples of
-- a thread. A panic is a value; the inner `loop` runs on fuel.
mod CallTree
mod Stacks
mod Frames
mod Repeats
mod Samples
pub mod Outcome
mod Misplaced
mod Order
mod Search
pub mod Tables
mod Fixtures
mod Tests
use profiler_rs.Address
use profiler_rs.Address.{ProcessMemoryAddress}
use profiler_rs.NativeStack.{NativeStack}
use profiler_rs.Prelude.{
  ℕ, zero, suc, ◌+◌, List, [], ◌∷◌, ◌++◌, true, false, Option, none, some, Result, ok, err, ◌>>=◌,
  reverse, length, get_elem?, if◌then◌else◌,
}
use profiler_rs.TimeExpiringBuffer.{TimeExpiringBuffer, BufferEntry, iter_thread}

pub record Sample : Type 0 where
  pub native_stack : NativeStack

pub record StackForSerialization : Type 0 where
  pub prefix : Option ℕ
  pub instruction_ptr : ProcessMemoryAddress

abbrev pub StackTable : Type 0
StackTable = List StackForSerialization

pub data Fault : Type 0 where
  panicked out_of_fuel : Fault

-- The variables of the loops over the frames of one sample.
pub record Walk : Type 0 where
  pub stack_table : StackTable
  pub stack_index : Option ℕ
  pub last_matching_stack_index : Option ℕ

-- How a round of the inner `loop` ends.
pub data Round : Type 0 where
  break : Walk → Round
  again : Walk → Round
  panic : Round

-- The stack that `stack_index` stands for, if any.
pub stack_at : StackTable → Option ℕ → Option StackForSerialization
stack_at table none = none
stack_at table (some i) = get_elem? table i

-- `stack_index = Some(stack_index.unwrap() + 1)`.
pub advance : Walk → Option ℕ → Round
advance w none = panic
advance w (some i) = again (record w { stack_index = some (i + 1) })

-- The end of the table: add an entry there and point at it.
pub push_stack : ProcessMemoryAddress → Walk → Walk
push_stack ptr w = record {
  stack_table =
      w.stack_table ++ record { prefix = w.last_matching_stack_index; instruction_ptr = ptr } ∷ [];
  stack_index = some (length w.stack_table);
  last_matching_stack_index = some (length w.stack_table);
}

pub round : ProcessMemoryAddress → Walk → Round
unfolding stack_at advance push_stack Address.eq
round ptr w = elim (stack_at w.stack_table w.stack_index) [
  | some stack ↦
      if Address.eq ptr stack.instruction_ptr
      then break (record w { last_matching_stack_index = w.stack_index })
      else advance w w.stack_index
  | none ↦ break (push_stack ptr w)
]

-- The inner `loop`.
pub find_stack : ℕ → ProcessMemoryAddress → Walk → Result Walk Fault
find_stack zero ptr w = err out_of_fuel
find_stack (suc fuel) ptr w = elim (round ptr w) [
  | break w' ↦ ok w'
  | again w' ↦ find_stack fuel ptr w'
  | panic ↦ err panicked
]

-- The loop over the frames of a sample, root first. A null frame is passed over.
pub add_frames : List ProcessMemoryAddress → Walk → Result Walk Fault
add_frames [] w = ok w
add_frames (ptr ∷ rest) w = elim (Address.is_null ptr) [
  | true ↦ add_frames rest w
  | false ↦ find_stack (length w.stack_table + 1) ptr w >>= add_frames rest
]

-- The variables of the loop over the samples.
pub record Build : Type 0 where
  pub stack_table : StackTable
  pub stack_index : Option ℕ
  pub buffer_entry_to_stack_table : List ℕ

-- The end of a sample: `push(stack_index.unwrap())`, and start the next one at the table's start.
pub finish_sample : List ℕ → Walk → Option ℕ → Result Build Fault
finish_sample indices w none = err panicked
finish_sample indices w (some i) = ok (record {
  stack_table = w.stack_table;
  stack_index = some 0;
  buffer_entry_to_stack_table = indices ++ i ∷ [];
})

pub add_sample : NativeStack → Build → Result Build Fault
add_sample native_stack b = do
  w ← add_frames (reverse native_stack.instruction_ptrs) (record {
    stack_table = b.stack_table;
    stack_index = b.stack_index;
    last_matching_stack_index = none;
  })
  finish_sample b.buffer_entry_to_stack_table w w.stack_index

-- The loop over the samples.
pub add_samples : List (BufferEntry Sample) → Build → Result Build Fault
add_samples [] b = ok b
add_samples (entry ∷ rest) b = add_sample entry.value.native_stack b >>= add_samples rest

abbrev pub start : Build
start = record { stack_table = []; stack_index = none; buffer_entry_to_stack_table = [] }

pub record SamplesSerializer : Type 0 where
  pub profiler_start : ℕ
  pub buffer : TimeExpiringBuffer Sample
  pub stack_table : StackTable
  pub buffer_entry_to_stack_table : List ℕ

pub new :
    (profiler_start : ℕ) → TimeExpiringBuffer Sample → (tid : ℕ) → Result SamplesSerializer Fault
new profiler_start buffer tid = do
  b ← add_samples (iter_thread buffer tid) start
  ok (record {
    profiler_start = profiler_start;
    buffer = buffer;
    stack_table = b.stack_table;
    buffer_entry_to_stack_table = b.buffer_entry_to_stack_table;
  })
