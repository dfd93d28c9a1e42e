-- ===== src/Discount/Calculate/Exact.antt =====
-- The percentage is exact: no operation of the two-part formula leaves the range of int64.
use go_benefit.Prelude.{ℕ, ◌+◌, ◌*◌, ◌/◌, ◌%◌, ◌≤◌, ◌≡◌, arith, ◌∙◌, ap}
use go_benefit.Int64.{pos, max_int64}
use go_benefit.Int64.Laws.{add64_pos, mul64_pos, quo64_pos, rem64_pos}
use go_benefit.Discount.Calculate.{percentage_of}

split_at : (q r b : ℕ) → q * b + r * b / 10000 ≡ (q * 10000 + r) * b / 10000
split_at q r b = omega arith

-- floor (n * b / 10000), split at the quotient and the remainder of n.
split_floor : (n b : ℕ) → n / 10000 * b + n % 10000 * b / 10000 ≡ n * b / 10000
split_floor n b =
    split_at (n / 10000) (n % 10000) b
    ∙ ap (λ (t : ℕ). t * b / 10000) (let e : n / 10000 * 10000 + n % 10000 ≡ n = omega arith in e)

part_le : (n b : ℕ) → b ≤ 10000 → n / 10000 * b ≤ n
part_le n b h = grind arith

rest_le : (n b : ℕ) → b ≤ 10000 → n % 10000 * b ≤ 100000000
rest_le n b h = grind arith

pub floor_le : (n b : ℕ) → b ≤ 10000 → n * b / 10000 ≤ n
floor_le n b h = grind arith

-- The three products and the two quotients stay in range, and the sum is the floor of the exact
-- product, which may itself be far out of range.
pub percentage_of_pos :
    (n b : ℕ) → n ≤ max_int64 → b ≤ 10000 → percentage_of (pos n) (pos b) ≡ pos (n * b / 10000)
unfolding percentage_of
percentage_of_pos n b hn hb = rw (
  quo64_pos n 10000 (omega arith),
  rem64_pos n 10000,
  mul64_pos (n / 10000) b (omega (arith, part_le n b hb)),
  mul64_pos (n % 10000) b (omega (arith, rest_le n b hb)),
  quo64_pos (n % 10000 * b) 10000 (omega (arith, rest_le n b hb)),
  add64_pos (n / 10000 * b) (n % 10000 * b / 10000)
      (omega (arith, split_floor n b, floor_le n b hb)),
  split_floor n b,
)
