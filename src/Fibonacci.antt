-- ===== src/Fibonacci.antt =====
-- examples/utils/mod.rs: the Fibonacci numbers that the example threads compute.
mod Reference
mod Tests
use profiler_rs.Prelude.{ℕ, zero, suc, ◌+◌, ◌≡◌}

-- What is used of the crates num_bigint and num_traits, as a parameter: numbers without a bound, which
-- the documentation explains by their values.
pub record BigUint : Type 1 where
  pub Number : Type 0
  pub nought : Number
  pub one : Number
  pub add : Number → Number → Number
  pub value : Number → ℕ
  pub value-nought : value nought ≡ 0
  pub value-one : value one ≡ 1
  pub value-add : (x y : Number) → value (add x y) ≡ value x + value y

module _ (B : BigUint) where
  open B use {Number, nought, one, add}

  -- The loop over `0..iterations`, with the two variables.
  pub fibonacci_loop : (iterations : ℕ) → (current next : Number) → Number
  fibonacci_loop zero current next = current
  fibonacci_loop (suc n) current next = fibonacci_loop n next (add current next)

  pub fibonacci : (iterations : ℕ) → Number
  unfolding fibonacci_loop
  fibonacci iterations = fibonacci_loop iterations nought one
