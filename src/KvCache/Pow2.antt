-- ===== src/KvCache/Pow2.antt =====
-- `usize::next_power_of_two`, the smallest power of two that is not below a number.
use vvaves.Common.{ℕ, zero, suc, ◌+◌, ◌*◌, ◌≤◌, arith, leb, if◌then◌else◌}

-- Doubles `p` until it reaches `n`; it is given the rounds that may be needed.
double_to : ℕ → ℕ → ℕ → ℕ
double_to zero n p = p
double_to (suc fuel) n p = let more = double_to fuel n (p * 2) in if leb n p then p else more

unfoldable pub next_power_of_two : ℕ → ℕ
unfolding double_to
next_power_of_two n = double_to n n 1

-- Each round doubles a `p` that is 1 at least, so `n` rounds are enough.
le-double_to : (fuel n p : ℕ) → n ≤ fuel + p → 1 ≤ p → n ≤ double_to fuel n p
unfolding double_to
le-double_to zero n p h pos = omega arith
le-double_to (suc fuel) n p h pos = ground (arith, le-double_to fuel n (p * 2))

pub le-next_power_of_two : (n : ℕ) → n ≤ next_power_of_two n
unfolding next_power_of_two
le-next_power_of_two n = le-double_to n n 1 (omega arith) (omega arith)
