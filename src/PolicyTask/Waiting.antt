-- ===== src/PolicyTask/Waiting.antt =====
-- main/policy_task.cpp: when the next cycle begins, although the counter of ticks wraps.
use power.Prelude.{
  ℕ, ◌+◌, ◌-◌, ◌%◌, ◌^◌, ◌≤◌, ◌<◌, ◌≡◌, none, some, leb, refl, ap, inl, inr, Bool-cases,
  if◌then◌else◌, arith,
}
use power.PolicyTask.Cycle.{tick_reached, cycle_deadline, next_delay}

-- Of two counts of ticks less than 2 ^ 31 apart, the 32-bit test tells which is the later.
tick_reached-leb :
    (later deadline : ℕ)
    → later < deadline + 2147483648
    → deadline ≤ later + 2147483648
    → tick_reached (later % 2 ^ 32) (deadline % 2 ^ 32) ≡ leb deadline later
unfolding tick_reached
tick_reached-leb later deadline near below = ground arith

-- Counted without a wrap: where the cycle has ended before its period did, the task waits until the
-- next cycle is due, at most a period, and it only yields where the period is over. The ticks are
-- read in order, and the cycle takes less than 2 ^ 31 ticks.
pub next_delay-unwrapped :
    (cycle_start now later : ℕ)
    → cycle_start ≤ now
    → now ≤ later
    → later < cycle_start + 2147483648
    → next_delay (cycle_start % 2 ^ 32) (now % 2 ^ 32) (later % 2 ^ 32)
      ≡ (if leb (cycle_start + 6000) later then none else some (cycle_start + 6000 - now))
unfolding next_delay cycle_deadline
next_delay-unwrapped cycle_start now later begun ordered short =
    let due : (cycle_start % 4294967296 + 6000) % 4294967296 ≡ (cycle_start + 6000) % 4294967296 =
      omega arith in
    let reached = tick_reached-leb later (cycle_start + 6000) (omega arith) (omega arith) in
    rw (due, reached)
      (elim (Bool-cases (leb (cycle_start + 6000) later)) [
        | inl over ↦ rw over refl
        | inr early ↦ rw early (ap (λ d. some d) (ground arith))
      ])
