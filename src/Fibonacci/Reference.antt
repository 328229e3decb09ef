-- ===== src/Fibonacci/Reference.antt =====
-- The loop of examples/utils/mod.rs against the recursive definition of the Fibonacci numbers.
use profiler_rs.Fibonacci.{BigUint, fibonacci_loop, fibonacci}
use profiler_rs.Prelude.{ℕ, zero, suc, ◌+◌, ◌≡◌, arith, ap, ◌∙◌}

-- The recursive definition.
unfoldable pub fib : ℕ → ℕ
fib zero = 0
fib (suc zero) = 1
fib (suc (suc n)) = fib n + fib (suc n)

module _ (B : BigUint) where
  open B use {Number, value, value-nought, value-one, value-add}

  -- In front of a round the variables hold two neighbours.
  fibonacci_loop-fib :
      (n i : ℕ) (current next : Number)
      → value current ≡ fib i
      → value next ≡ fib (suc i)
      → value (fibonacci_loop B n current next) ≡ fib (i + n)
  unfolding fibonacci_loop fib
  fibonacci_loop-fib zero i current next here there =
      let same : i ≡ i + 0 = omega arith in here ∙ ap fib same
  fibonacci_loop-fib (suc n) i current next here there =
      let sum : value (B.add current next) ≡ fib (suc (suc i)) =
        omega (arith, value-add current next, here, there) in
      let same : suc i + n ≡ i + suc n = omega arith in
      fibonacci_loop-fib n (suc i) next (B.add current next) there sum ∙ ap fib same

  -- The value of `fibonacci(n)` is the n-th Fibonacci number of the recursive definition.
  pub fibonacci-fib : (n : ℕ) → value (fibonacci B n) ≡ fib n
  unfolding fibonacci fib
  fibonacci-fib n =
      let same : 0 + n ≡ n = omega arith in
      fibonacci_loop-fib n 0 B.nought B.one value-nought value-one ∙ ap fib same
