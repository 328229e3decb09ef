-- ===== src/Fibonacci/Tests.antt =====
-- The function of examples/utils/mod.rs on native numbers.
use profiler_rs.Fibonacci.{BigUint, fibonacci}
use profiler_rs.Fibonacci.Reference.{fib, fibonacci-fib}
use profiler_rs.Prelude.{ℕ, ◌+◌, ◌≡◌, refl}

abbrev unbounded : BigUint
unbounded = record {
  Number = ℕ;
  nought = 0;
  one = 1;
  add = λ x y. x + y;
  value = λ x. x;
  value-nought = refl;
  value-one = refl;
  value-add = λ x y. refl;
}

fib_20 : fib 20 ≡ 6765
unfolding fib
fib_20 = refl

fibonacci-fib_example : fibonacci unbounded 20 ≡ fib 20
fibonacci-fib_example = fibonacci-fib unbounded 20
