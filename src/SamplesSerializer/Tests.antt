-- ===== src/SamplesSerializer/Tests.antt =====
-- The theorems on `SamplesSerializer` (src/sampler.rs) at concrete samples, and the repository's own
-- test `can_create_a_stack_table`.
use profiler_rs.Address
use profiler_rs.Address.{ProcessMemoryAddress}
use profiler_rs.NativeStack.{max_native_frames}
use profiler_rs.NativeStack.Capacity.{padded}
use profiler_rs.Prelude.{
  ℕ, String, ◌-◌, ap, ◌<◌, ◌≡◌, refl, ◌≢◌, List, [], ◌∷◌, Option, none, some, ok, err, arith,
  length, map, get_elem?, All, ◌==◌, if◌then◌else◌, replicate,
}
use profiler_rs.SamplesSerializer.{
  Sample, StackTable, panicked, SamplesSerializer, stack_at, advance, push_stack, round, find_stack,
  add_frames, finish_sample, add_sample, add_samples, new,
}
use profiler_rs.SamplesSerializer.Outcome.{serializer, new_outcome}
use profiler_rs.SamplesSerializer.Search.{stack}
use profiler_rs.SamplesSerializer.Samples.{stacks}
use profiler_rs.SamplesSerializer.CallTree.{StackOf, IsCallPath}
use profiler_rs.SamplesSerializer.Misplaced.{new-loses_caller}
use profiler_rs.SamplesSerializer.Order.{Names, new-IsWellOrdered, new_indices}
use profiler_rs.SamplesSerializer.Repeats.{unrepeat, new-unrepeat}
use profiler_rs.SamplesSerializer.Stacks.{new-StackOf}
use profiler_rs.SamplesSerializer.Tables.{
  as_millis, sample_row, samples_table, serialize_samples, frames_table, serialize_frame_table,
}
use profiler_rs.SamplesSerializer.Tables.Rows.{
  serialize_samples-new, serialize_frame_table-resolves, FrameRowsOf,
}
use profiler_rs.StringTable
use profiler_rs.StringTable.{StringTable}
use profiler_rs.StringTable.Interning.{IsConsistent, new-IsConsistent}
use profiler_rs.Json.Tests.{test_json}
use profiler_rs.TimeExpiringBuffer.{TimeExpiringBuffer, BufferEntry, duration_since, iter_thread}

abbrev address : ℕ → ProcessMemoryAddress
address n = record { value = n }

-- A sample of thread 0, its addresses leaf first, in an array of the full length.
abbrev taken : ℕ → List ℕ → BufferEntry Sample
taken at ptrs = record {
  tid = 0;
  created_at = at;
  value = record {
    native_stack = record {
      instruction_ptrs = padded (map address ptrs);
      stack_ptrs = replicate max_native_frames Address.null;
      count = 0;
    };
  };
}

abbrev with_samples : List (BufferEntry Sample) → TimeExpiringBuffer Sample
with_samples es = record { buffer = es; entry_lifetime = 60_000_000_000 }

abbrev test_buffer : TimeExpiringBuffer Sample
test_buffer = with_samples (
    taken 0 (0x12 ∷ 0x11 ∷ 0x10 ∷ [])
    ∷ taken 1_000_000 (0x13 ∷ 0x12 ∷ 0x11 ∷ 0x10 ∷ [])
    ∷ taken 2_000_000 (0x14 ∷ 0x13 ∷ 0x12 ∷ 0x11 ∷ 0x10 ∷ [])
    ∷ taken 3_000_000 (0x16 ∷ 0x15 ∷ 0x10 ∷ [])
    ∷ taken 4_000_000 (0x17 ∷ 0x16 ∷ 0x15 ∷ 0x10 ∷ [])
    ∷ taken 5_000_000 (0x12 ∷ 0x11 ∷ 0x10 ∷ [])
    ∷ [])

abbrev test_table : StackTable
test_table =
    stack none (address 0x10)
    ∷ stack (some 0) (address 0x11)
    ∷ stack (some 1) (address 0x12)
    ∷ stack (some 2) (address 0x13)
    ∷ stack (some 3) (address 0x14)
    ∷ stack (some 0) (address 0x15)
    ∷ stack (some 5) (address 0x16)
    ∷ stack (some 6) (address 0x17)
    ∷ []

abbrev test_serializer : SamplesSerializer
test_serializer = serializer 0 test_buffer test_table (2 ∷ 3 ∷ 4 ∷ 6 ∷ 7 ∷ 2 ∷ [])

can_create_a_stack_table : new 0 test_buffer 0 ≡ ok test_serializer
unfolding new add_samples add_sample add_frames find_stack round stack_at advance push_stack
    finish_sample iter_thread Address.is_null Address.eq max_native_frames
can_create_a_stack_table = refl

-- The caller of each address of `test_buffer`.
abbrev test_caller : ProcessMemoryAddress → Option ProcessMemoryAddress
test_caller a =
    if a.value == 0x10
    then none
    else if a.value == 0x15
    then some (address 0x10)
    else some (address (a.value - 1))

abbrev sampled_at_3 : List ProcessMemoryAddress
sampled_at_3 = address 0x10 ∷ address 0x15 ∷ address 0x16 ∷ []

not_empty : sampled_at_3 ≢ []
not_empty e = cc

test_paths : All (IsCallPath test_caller none) (stacks (iter_thread test_buffer 0))
unfolding iter_thread Address.is_null max_native_frames
test_paths = (
  (refl, (refl, (refl, tt))),
  (
    (refl, (refl, (refl, (refl, tt)))),
    (
      (refl, (refl, (refl, (refl, (refl, tt))))),
      (
        (refl, (refl, (refl, tt))),
        ((refl, (refl, (refl, (refl, tt)))), ((refl, (refl, (refl, tt))), tt)),
      ),
    ),
  ),
)

new-StackOf_example :
    (j : ℕ) × (get_elem? (2 ∷ 3 ∷ 4 ∷ 6 ∷ 7 ∷ 2 ∷ []) 3 ≡ some j)
    × StackOf test_table (some j) (address 0x16 ∷ address 0x15 ∷ address 0x10 ∷ [])
unfolding iter_thread Address.is_null max_native_frames
new-StackOf_example =
    (new-StackOf test_caller 0 test_buffer 0 test_serializer test_paths can_create_a_stack_table).1
      3 sampled_at_3 refl not_empty

new-IsWellOrdered_example : 2 < 3
new-IsWellOrdered_example =
    new-IsWellOrdered 0 test_buffer 0 test_serializer can_create_a_stack_table 3 2
      (stack (some 2) (address 0x13)) refl refl

new_indices_example :
    (j : ℕ) × (get_elem? (2 ∷ 3 ∷ 4 ∷ 6 ∷ 7 ∷ 2 ∷ []) 3 ≡ some j)
    × Names test_table j (address 0x16)
unfolding iter_thread Address.is_null max_native_frames
new_indices_example =
    (new_indices 0 test_buffer 0 test_serializer can_create_a_stack_table).2 3 sampled_at_3
      (address 0x16) refl refl

-- The first sample has no frame.
new_outcome_example : new 0 (with_samples (taken 0 [] ∷ taken 1 (0x10 ∷ []) ∷ [])) 0 ≡ err panicked
unfolding iter_thread Address.is_null max_native_frames
new_outcome_example =
    (new_outcome 0 (with_samples (taken 0 [] ∷ taken 1 (0x10 ∷ []) ∷ [])) 0).1 (λ h. h refl)

-- The second sample is the first with a deeper recursion.
abbrev recursive_buffer : TimeExpiringBuffer Sample
recursive_buffer =
    with_samples (taken 0 (0x11 ∷ 0x10 ∷ []) ∷ taken 1 (0x11 ∷ 0x11 ∷ 0x10 ∷ []) ∷ [])

abbrev recursive_serializer : SamplesSerializer
recursive_serializer =
    serializer 0 recursive_buffer (stack none (address 0x10) ∷ stack (some 0) (address 0x11) ∷ [])
      (1 ∷ 1 ∷ [])

recursive_run : new 0 recursive_buffer 0 ≡ ok recursive_serializer
unfolding new add_samples add_sample add_frames find_stack round stack_at advance push_stack
    finish_sample iter_thread Address.is_null Address.eq max_native_frames
recursive_run = refl

new-unrepeat_example :
    get_elem? recursive_serializer.buffer_entry_to_stack_table 0
    ≡ get_elem? recursive_serializer.buffer_entry_to_stack_table 1
unfolding iter_thread Address.is_null Address.eq max_native_frames unrepeat
new-unrepeat_example =
    new-unrepeat 0 recursive_buffer 0 recursive_serializer 0 1 (address 0x10 ∷ address 0x11 ∷ [])
      (address 0x10 ∷ address 0x11 ∷ address 0x11 ∷ []) recursive_run refl refl refl

abbrev misplaced_buffer : TimeExpiringBuffer Sample
misplaced_buffer =
    with_samples (taken 0 (0x10 ∷ []) ∷ taken 1 (0x11 ∷ []) ∷ taken 2 (0x11 ∷ 0x10 ∷ []) ∷ [])

abbrev misplaced_serializer : SamplesSerializer
misplaced_serializer =
    serializer 0 misplaced_buffer (stack none (address 0x10) ∷ stack none (address 0x11) ∷ [])
      (0 ∷ 1 ∷ 1 ∷ [])

misplaced_run : new 0 misplaced_buffer 0 ≡ ok misplaced_serializer
unfolding new add_samples add_sample add_frames find_stack round stack_at advance push_stack
    finish_sample iter_thread Address.is_null Address.eq max_native_frames
misplaced_run = refl

differ : address 0x10 ≢ address 0x11
differ e = let v : ◌≡◌ {A = ℕ} 0x10 0x11 = ap (λ a. a.value) e in omega arith

new-loses_caller_example :
    (get_elem? misplaced_serializer.buffer_entry_to_stack_table 2 ≡ some 1)
    × StackOf misplaced_serializer.stack_table (some 1) (address 0x11 ∷ [])
    × (¬ StackOf misplaced_serializer.stack_table (some 1) (address 0x11 ∷ address 0x10 ∷ []))
unfolding iter_thread Address.is_null max_native_frames
new-loses_caller_example =
    new-loses_caller (address 0x10) (address 0x11) differ 0 misplaced_buffer 0 misplaced_serializer
      refl misplaced_run

serialize_samples-new_example :
    (rows : List test_json.Value) × (serialize_samples test_json test_serializer 0
      ≡ ok (samples_table test_json rows))
    × (length rows ≡ length (iter_thread test_buffer 0))
    × ((k j : ℕ) (e : BufferEntry Sample)
        → get_elem? (iter_thread test_buffer 0) k ≡ some e
        → get_elem? (2 ∷ 3 ∷ 4 ∷ 6 ∷ 7 ∷ 2 ∷ []) k ≡ some j
        → get_elem? rows k
          ≡ some (sample_row test_json j (as_millis (duration_since e.created_at 0))))
serialize_samples-new_example =
    serialize_samples-new test_json 0 test_buffer 0 test_serializer can_create_a_stack_table

serialize_frame_table-resolves_example :
    (rows : List test_json.Value) × (t' : StringTable) × (serialize_frame_table test_json
        test_serializer StringTable.new
      ≡ (frames_table test_json rows, t'))
    × (length rows ≡ 8)
    × FrameRowsOf test_json test_table rows t'
    × ((i : ℕ) (r : String)
        → get_elem? StringTable.new.strings i ≡ some r
        → get_elem? t'.strings i ≡ some r)
    × IsConsistent t'
serialize_frame_table-resolves_example =
    serialize_frame_table-resolves test_json test_serializer StringTable.new new-IsConsistent
