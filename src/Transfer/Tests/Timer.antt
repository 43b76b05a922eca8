-- ===== src/Transfer/Tests/Timer.antt =====
-- Three fragments whose readings of the clock do not move, with thousandths for doubles.
use native.Mathlib.Nat.{mul-zero, zero-mul, zero-div}
use ece.Base.{ℕ, suc, ◌*◌, ◌-◌, ◌+◌, ◌/◌, ◌≡◌, refl, List, [], ◌∷◌, arith}
use ece.Transfer.Deliver.Timer.{Double, Timer, timeouts}
use ece.Transfer.Deliver.Timer.Laws.{IsIeee, first_only, timeouts_still}

abbrev thousandths : Double ℕ
thousandths = record {
  literal = λ a b. a * 1000 / b;
  of_int = λ n. n * 1000;
  int_of = λ x. x / 1000;
  add = λ x y. x + y;
  subtract = λ x y. x - y;
  multiply = λ x y. x * y / 1000;
  divide = λ x n. x / n;
  fabs = λ x. x;
}

thousandths-IsIeee : IsIeee thousandths
thousandths-IsIeee = record {
  add-zero = refl;
  literal-zero = λ a b h. rw (mul-zero (a * 1000 / suc b)) refl;
  rest-zero = λ a b h. rw (mul-zero (1000 - a * 1000 / suc b)) refl;
  multiply-zero = λ n h. rw (mul-zero (n * 1000)) refl;
  zero-multiply = λ n h. rw (zero-mul (n * 1000)) refl;
  subtract-self = λ n h. omega arith;
  divide-zero = λ n. zero-div (suc n);
  fabs-zero = refl;
  int_of-zero = refl;
}

abbrev steady : List (ℕ × ℕ)
steady = (700, 700) ∷ (701, 701) ∷ (701, 701) ∷ []

abbrev clock_timer : Timer thousandths
clock_timer = record { estimated_rtt = 0; dev_rtt = 0; time_interval = 0 }

timeouts_still_example : timeouts thousandths 0 steady clock_timer ≡ first_only steady
timeouts_still_example =
    timeouts_still thousandths thousandths-IsIeee steady clock_timer
      ((refl, omega arith), ((refl, omega arith), ((refl, omega arith), tt)))
