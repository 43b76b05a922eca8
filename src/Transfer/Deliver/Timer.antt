-- ===== src/Transfer/Deliver/Timer.antt =====
-- File_Transfer_Lab_Part_III/deliver/deliver.c: how long `recvfrom` waits for an acknowledgement. The
-- arithmetic of C on doubles is a parameter.
pub mod Laws
use ece.Base.{ℕ, ◌+◌, List, [], ◌∷◌, ◌==◌, if◌then◌else◌}

-- `literal a b` is the double next to a / b, `of_int` and `int_of` are casts, and `divide` has the number as
-- its divisor.
pub record Double (D : Type 0) : Type 0 where
  pub literal : ℕ → ℕ → D
  pub of_int : ℕ → D
  pub int_of : D → ℕ
  pub add : D → D → D
  pub subtract : D → D → D
  pub multiply : D → D → D
  pub divide : D → ℕ → D
  pub fabs : D → D

abbrev pub second_to_microsecond : ℕ
second_to_microsecond = 1000000

-- CLOCKS_PER_SEC, as POSIX has it.
abbrev pub clocks_per_sec : ℕ
clocks_per_sec = 1000000

module _ {D : Type 0} (d : Double D) where
  unfoldable pub new_estimate_rtt : D → D → D
  new_estimate_rtt sample_rtt old_estimated_rtt =
      let alpha = d.literal 125 1000 in
      d.add (d.multiply (d.subtract (d.literal 1 1) alpha) old_estimated_rtt)
        (d.multiply alpha sample_rtt)

  unfoldable pub new_dev_rtt : D → D → D → D
  new_dev_rtt dev_rtt sample_rtt estimated_rtt =
      let beta = d.literal 25 100 in
      d.add (d.multiply (d.subtract (d.literal 1 1) beta) dev_rtt)
        (d.multiply beta (d.fabs (d.subtract sample_rtt estimated_rtt)))

  -- What the loop over the fragments keeps.
  pub record Timer : Type 0 where
    pub estimated_rtt : D
    pub dev_rtt : D
    pub time_interval : D

  -- The seconds and microseconds of `timeout` for the fragment with this index.
  unfoldable pub timeout : ℕ → Timer → ℕ × ℕ
  timeout i t = if i == 0 then (1, 0) else (
    d.int_of t.time_interval,
    d.int_of (
        d.multiply (d.subtract t.time_interval (d.of_int (d.int_of t.time_interval)))
          (d.of_int second_to_microsecond)),
  )

  abbrev pub timer : D → D → Timer
  timer estimated_rtt dev_rtt = record {
    estimated_rtt = estimated_rtt;
    dev_rtt = dev_rtt;
    time_interval = d.add estimated_rtt (d.multiply (d.of_int 4) dev_rtt);
  }

  -- What `clock` said before and after the last `recvfrom` of a fragment.
  unfoldable pub measure : ℕ → ℕ × ℕ → Timer → Timer
  unfolding new_estimate_rtt new_dev_rtt
  measure i (start_time, end_time) t =
      let sample = d.divide (d.subtract (d.of_int end_time) (d.of_int start_time)) clocks_per_sec in
      let estimated_rtt = new_estimate_rtt sample t.estimated_rtt in
      if i == 0
      then timer sample (d.divide sample 2)
      else timer estimated_rtt (new_dev_rtt t.dev_rtt sample estimated_rtt)

  -- The timeouts of the fragments from `i` on, one reading of the clock for each.
  unfoldable pub timeouts : ℕ → List (ℕ × ℕ) → Timer → List (ℕ × ℕ)
  unfolding timeout measure
  timeouts i [] t = []
  timeouts i (reading ∷ readings) t = timeout i t ∷ timeouts (i + 1) readings (measure i reading t)
