-- ===== src/TimeExpiringBuffer/Tests.antt =====
-- The theorems on the buffer of src/time_expiring_buffer.rs at a concrete history, with times in
-- microseconds: the case of the repository's test `expired_markers_are_removed`.
use profiler_rs.Prelude.{ℕ, ◌≡◌, arith, List, [], ◌∷◌}
use profiler_rs.TimeExpiringBuffer.{BufferEntry, new}
use profiler_rs.TimeExpiringBuffer.History.{Call, push, expire, run, run-new}

abbrev test_calls : List (ℕ × Call ℕ)
test_calls = (0, push 0 1) ∷ (120, push 0 2) ∷ (121, push 0 3) ∷ (122, expire) ∷ []

abbrev entry_at : ℕ → ℕ → BufferEntry ℕ
entry_at created_at value = record { tid = 0; created_at = created_at; value = value }

-- A lifetime of 100.
run-new_example : (run (new 100) test_calls).buffer ≡ entry_at 120 2 ∷ entry_at 121 3 ∷ []
run-new_example =
    run-new 0 100 test_calls (omega arith, (omega arith, (omega arith, (omega arith, tt))))
