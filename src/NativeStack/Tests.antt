-- ===== src/NativeStack/Tests.antt =====
-- The theorem on `NativeStack` (src/sampler.rs) for the first register that is added.
use profiler_rs.Address
use profiler_rs.NativeStack.{max_native_frames, new, add_register_to_stack}
use profiler_rs.NativeStack.Capacity.{Holds, new-Holds, add_register_to_stack-Holds}
use profiler_rs.Prelude.{◌≡◌, ok, arith, [], ◌∷◌}

add_register_to_stack-Holds_example :
    ((add_register_to_stack new 0x10 0x20).0 ≡ ok tt)
    × Holds (Address.new 0x10 ∷ []) (Address.new 0x20 ∷ []) (add_register_to_stack new 0x10 0x20).1
unfolding max_native_frames
add_register_to_stack-Holds_example =
    (add_register_to_stack-Holds [] [] new 0x10 0x20 new-Holds).0 (omega arith)
