-- ===== src/SamplesSerializer/Fixtures.antt =====
-- The helpers of the tests in src/sampler.rs that make samples from lists of bytes.
use profiler_rs.Address
use profiler_rs.Address.{ProcessMemoryAddress}
use profiler_rs.NativeStack
use profiler_rs.NativeStack.{max_native_frames}
use profiler_rs.NativeStack.Capacity.{padded, set-padded}
use profiler_rs.Prelude.{
  ℕ, ◌+◌, ◌*◌, ◌-◌, ◌≤◌, ◌≡◌, List, [], ◌∷◌, ◌++◌, Option, none, some, ltb, lt→ltb, arith, length,
  map, set, length-append, length-replicate, replicate, true, if◌then◌else◌, ap, sym, ◌∙◌,
  append_assoc, append-nil,
}
use profiler_rs.SamplesSerializer.{Sample}
use profiler_rs.TimeExpiringBuffer
use profiler_rs.TimeExpiringBuffer.{TimeExpiringBuffer, push_back_at}

-- The loop over the bytes; `none` is the panic behind the end of the array.
fill_ptrs : (index : ℕ) → List ℕ → List ProcessMemoryAddress → Option (List ProcessMemoryAddress)
fill_ptrs index [] ptrs = some ptrs
fill_ptrs index (stack ∷ stacks) ptrs =
    let rest = fill_ptrs (index + 1) stacks (set ptrs index (Address.new stack)) in
    if ltb index (length ptrs) then rest else none

-- The sample; its count is not set.
abbrev with_ptrs : Option (List ProcessMemoryAddress) → Option Sample
with_ptrs none = none
with_ptrs (some ptrs) =
    some (record { native_stack = record NativeStack.new { instruction_ptrs = ptrs } })

pub add_stack_sample : List ℕ → Option Sample
unfolding fill_ptrs
add_stack_sample stacks = with_ptrs (fill_ptrs 0 stacks NativeStack.new.instruction_ptrs)

-- The loop over the test data: a millisecond from one sample to the next, on thread 0.
push_samples :
    (profiler_start index : ℕ)
    → List (List ℕ)
    → TimeExpiringBuffer Sample
    → Option (TimeExpiringBuffer Sample)
push_samples profiler_start index [] buffer = some buffer
push_samples profiler_start index (stacks ∷ rest) buffer = elim (add_stack_sample stacks) [
  | none ↦ none
  | some sample ↦
      push_samples profiler_start (index + 1) rest
        (push_back_at buffer sample (profiler_start + index * 1_000_000) 0)
]

pub create_buffer_for_tests :
    (profiler_start : ℕ) → List (List ℕ) → Option (TimeExpiringBuffer Sample)
unfolding push_samples
create_buffer_for_tests profiler_start test_data =
    push_samples profiler_start 0 test_data (TimeExpiringBuffer.new 60_000_000_000)

fill_ptrs-padded :
    (xs : List ProcessMemoryAddress) (ys : List ℕ)
    → length xs + length ys ≤ max_native_frames
    → fill_ptrs (length xs) ys (padded xs) ≡ some (padded (xs ++ map Address.new ys))
unfolding fill_ptrs
fill_ptrs-padded xs [] h = ap (λ l. some (padded l)) (sym (append-nil xs))
fill_ptrs-padded xs (y ∷ ys) h =
    let full = length-append xs (replicate (max_native_frames - length xs) Address.null) in
    let filled = length-replicate (max_native_frames - length xs) Address.null in
    let inside : ltb (length xs) (length (padded xs)) ≡ true =
      lt→ltb (length xs) (length (padded xs)) (omega (arith, full, filled)) in
    let next : length xs + 1 ≡ length (xs ++ Address.new y ∷ []) =
      omega (arith, length-append xs (Address.new y ∷ [])) in
    rw (inside, next, set-padded xs (Address.new y) (omega arith))
      (fill_ptrs-padded (xs ++ Address.new y ∷ []) ys (omega (arith, next))
        ∙ ap (λ l. some (padded l)) (append_assoc xs (Address.new y ∷ []) (map Address.new ys)))

-- Up to 1024 bytes become the first addresses of the array.
pub add_stack_sample-padded :
    (stacks : List ℕ)
    → length stacks ≤ max_native_frames
    → add_stack_sample stacks
      ≡ some (record {
        native_stack = record NativeStack.new {
          instruction_ptrs = padded (map Address.new stacks);
        };
      })
unfolding add_stack_sample NativeStack.new max_native_frames
add_stack_sample-padded stacks h = ap with_ptrs (fill_ptrs-padded [] stacks (omega arith))
