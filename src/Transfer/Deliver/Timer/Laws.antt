-- ===== src/Transfer/Deliver/Timer/Laws.antt =====
-- The timeouts where `clock`, which counts the processor time of the sender and not the time that it
-- waits, does not move.
use ece.Base.{ℕ, suc, ◌+◌, ◌≡◌, refl, ap, ◌∙◌, ◌<◌, false, List, [], ◌∷◌, map, All, ◌==◌, arith}
use ece.Transfer.Deliver.Timer.{
  Double, Timer, new_estimate_rtt, new_dev_rtt, timeout, timer, measure, timeouts,
}

-- Above every `clock_t` and `int`.
abbrev pub word_limit : ℕ
word_limit = 18446744073709551616

-- What IEEE 754 says of zero, with its sign forgotten, and of finite numbers: the products with it, and a
-- number that is taken from itself.
pub record IsIeee {D : Type 0} (d : Double D) : Type 0 where
  pub add-zero : d.add (d.of_int 0) (d.of_int 0) ≡ d.of_int 0
  pub literal-zero :
      (a b : ℕ) → a < word_limit → d.multiply (d.literal a (suc b)) (d.of_int 0) ≡ d.of_int 0
  pub rest-zero :
      (a b : ℕ)
      → a < word_limit
      → d.multiply (d.subtract (d.literal 1 1) (d.literal a (suc b))) (d.of_int 0) ≡ d.of_int 0
  pub multiply-zero : (n : ℕ) → n < word_limit → d.multiply (d.of_int n) (d.of_int 0) ≡ d.of_int 0
  pub zero-multiply : (n : ℕ) → n < word_limit → d.multiply (d.of_int 0) (d.of_int n) ≡ d.of_int 0
  pub subtract-self : (n : ℕ) → n < word_limit → d.subtract (d.of_int n) (d.of_int n) ≡ d.of_int 0
  pub divide-zero : (n : ℕ) → d.divide (d.of_int 0) (suc n) ≡ d.of_int 0
  pub fabs-zero : d.fabs (d.of_int 0) ≡ d.of_int 0
  pub int_of-zero : d.int_of (d.of_int 0) ≡ 0

-- The clock says the same twice.
abbrev pub IsStill : ℕ × ℕ → Type 0
IsStill r = (r.1 ≡ r.0) × (r.0 < word_limit)

abbrev pub no_wait : ℕ × ℕ → ℕ × ℕ
no_wait r = (0, 0)

-- A second for the first fragment, and a timeout of zero for all others.
abbrev pub first_only : List (ℕ × ℕ) → List (ℕ × ℕ)
first_only [] = []
first_only (r ∷ rs) = (1, 0) ∷ map no_wait rs

module _ {D : Type 0} (d : Double D) (ieee : IsIeee d) where
  abbrev zero : D
  zero = d.of_int 0

  abbrev stopped : Timer d
  stopped = record { estimated_rtt = zero; dev_rtt = zero; time_interval = zero }

  sample_zero :
      (r : ℕ × ℕ) → IsStill r → d.divide (d.subtract (d.of_int r.1) (d.of_int r.0)) 1000000 ≡ zero
  sample_zero r (e, fits) =
      ap (λ n. d.divide (d.subtract (d.of_int n) (d.of_int r.0)) 1000000) e
      ∙ ap (λ x. d.divide x 1000000) (ieee.subtract-self r.0 fits)
      ∙ ieee.divide-zero 999999

  timer-zero : timer d zero zero ≡ stopped
  timer-zero = rw (ieee.multiply-zero 4 (omega arith), ieee.add-zero) refl

  new_estimate_rtt-zero : new_estimate_rtt d zero zero ≡ zero
  unfolding new_estimate_rtt
  new_estimate_rtt-zero =
      rw
        (
          new_estimate_rtt,
          ieee.rest-zero 125 999 (omega arith),
          ieee.literal-zero 125 999 (omega arith),
        )
        ieee.add-zero

  new_dev_rtt-zero : new_dev_rtt d zero zero zero ≡ zero
  unfolding new_dev_rtt
  new_dev_rtt-zero =
      rw
        (
          new_dev_rtt,
          ieee.subtract-self 0 (omega arith),
          ieee.fabs-zero,
          ieee.rest-zero 25 99 (omega arith),
          ieee.literal-zero 25 99 (omega arith),
        )
        ieee.add-zero

  measure-first : (r : ℕ × ℕ) (t : Timer d) → IsStill r → measure d 0 r t ≡ stopped
  unfolding measure
  measure-first r t h = rw (sample_zero r h, ieee.divide-zero 1) timer-zero

  measure-later :
      (i : ℕ) (r : ℕ × ℕ) → (i == 0) ≡ false → IsStill r → measure d i r stopped ≡ stopped
  unfolding measure
  measure-later i r later h =
      rw (later, sample_zero r h, new_estimate_rtt-zero, new_dev_rtt-zero) timer-zero

  timeout-stopped : (i : ℕ) → (i == 0) ≡ false → timeout d i stopped ≡ (0, 0)
  unfolding timeout
  timeout-stopped i later =
      rw
        (
          later,
          ieee.int_of-zero,
          ieee.subtract-self 0 (omega arith),
          ieee.zero-multiply 1000000 (omega arith),
          ieee.int_of-zero,
        )
        refl

  timeouts-later :
      (i : ℕ) (rs : List (ℕ × ℕ))
      → (i == 0) ≡ false
      → All IsStill rs
      → timeouts d i rs stopped ≡ map no_wait rs
  unfolding timeouts
  timeouts-later i [] later h = refl
  timeouts-later i (r ∷ rs) later h =
      rw (timeout-stopped i later, measure-later i r later h.0)
        (ap (λ l. (0, 0) ∷ l) (timeouts-later (i + 1) rs (ground arith) h.1))

  -- On doubles that do with zero and with finite numbers what IEEE 754 says: if `clock` says the
  -- same before and after the recvfrom of each fragment, the first fragment has a timeout of a
  -- second, and every later one a timeout of zero, whatever the timer held before.
  pub timeouts_still :
      (readings : List (ℕ × ℕ)) (t : Timer d)
      → All IsStill readings
      → timeouts d 0 readings t ≡ first_only readings
  unfolding timeouts timeout
  timeouts_still [] t h = refl
  timeouts_still (r ∷ rs) t h =
      rw (measure-first r t h.0) (ap (λ l. (1, 0) ∷ l) (timeouts-later 1 rs refl h.1))
