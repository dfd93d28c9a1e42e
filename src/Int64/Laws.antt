-- ===== src/Int64/Laws.antt =====
-- Inside the range of int64 the wrapping operations are those of the integers.
use go_benefit.Prelude.{ℕ, ◌+◌, ◌-◌, ◌*◌, ◌/◌, ◌%◌, ◌≤◌, ◌<◌, ◌≡◌, ap, arith}
use go_benefit.Int64.{
  ℤ, pos, negsuc, ◌+ℤ◌, ◌-ℤ◌, ◌*ℤ◌, IsInt64, max_int64, wrap, add64, sub64, mul64, quo64, rem64,
}

pub wrap_of_IsInt64 : (a : ℤ) → IsInt64 a → wrap a ≡ a
unfolding wrap
wrap_of_IsInt64 (pos n) h = ground arith
wrap_of_IsInt64 (negsuc n) h = ground arith

pub wrap-IsInt64 : (a : ℤ) → IsInt64 (wrap a)
unfolding wrap
wrap-IsInt64 (pos n) = ground arith
wrap-IsInt64 (negsuc n) = ground arith

-- The sum of two amounts, zero or more, in range: exact, or negative.
pub add64_pos : (a b : ℕ) → a + b ≤ max_int64 → add64 (pos a) (pos b) ≡ pos (a + b)
unfolding add64 ◌+ℤ◌
add64_pos a b h = ground (arith, wrap_of_IsInt64 (pos (a + b)) h)

pub add64_overflow :
    (a b : ℕ)
    → a ≤ max_int64
    → b ≤ max_int64
    → max_int64 < a + b
    → (n : ℕ) × (add64 (pos a) (pos b) ≡ negsuc n)
unfolding add64 ◌+ℤ◌ wrap
add64_overflow a b h k over = (18446744073709551615 - (a + b), ground arith)

pub sub64_pos : (a b : ℕ) → a ≤ max_int64 → b ≤ a → sub64 (pos a) (pos b) ≡ pos (a - b)
unfolding sub64 ◌-ℤ◌ wrap
sub64_pos a b h le = ground arith

pub mul64_pos : (a b : ℕ) → a * b ≤ max_int64 → mul64 (pos a) (pos b) ≡ pos (a * b)
unfolding mul64 ◌*ℤ◌
mul64_pos a b h = ground (arith, wrap_of_IsInt64 (pos (a * b)) h)

pub quo64_pos : (a b : ℕ) → a / b ≤ max_int64 → quo64 (pos a) (pos b) ≡ pos (a / b)
unfolding quo64
quo64_pos a b h = wrap_of_IsInt64 (pos (a / b)) h

pub rem64_pos : (a b : ℕ) → rem64 (pos a) (pos b) ≡ pos (a % b)
unfolding rem64
rem64_pos a b = ap (λ n. pos (a % n)) (omega arith)
