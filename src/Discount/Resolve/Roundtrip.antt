-- ===== src/Discount/Resolve/Roundtrip.antt =====
-- Calculated and resolved effects are confirmed unchanged.
use go_benefit.Prelude.{ℕ, ◌≤◌, ◌≡◌, refl, sym, inr, arith}
use go_benefit.Int64.{ℤ, pos, ◌≤ℤ◌, ◌+ℤ◌, IsInt64}
use go_benefit.Text.{Text}
use go_benefit.Text.Fold.{to_upper, to_upper_idem}
use go_benefit.Errors.{ok}
use go_benefit.Core.Money.{Money, DiscountEffect}
use go_benefit.Core.Money.Valid.{IsCurrency, IsConsistent}
use go_benefit.Core.Money.Upper.{to_upper-IsCurrency}
use go_benefit.Discount.Calculate.{calculate_amount, calculate_percentage}
use go_benefit.Discount.Calculate.Exact.{floor_le}
use go_benefit.Discount.Calculate.Results.{
  Inherits, amount_effect, percentage_effect, calculate_amount-eq-ok_iff,
  calculate_percentage-eq-ok_iff,
}
use go_benefit.Discount.Resolve.{resolve}
use go_benefit.Discount.Resolve.Laws.{confirmed, InRange, resolve-confirmed_iff}

Inherits-to_upper : (c k : Text) → k ≡ to_upper c → Inherits k c
Inherits-to_upper c k h = inr (rw (h, to_upper_idem c))

-- A consistent effect of the trusted amount in the canonical currency is confirmed as it is.
confirms_self :
    (o : Money) (e : DiscountEffect)
    → IsCurrency o.currency
    → pos 0 ≤ℤ o.amount
    → IsConsistent e
    → e.original_amount ≡ o.amount
    → e.currency ≡ to_upper o.currency
    → InRange e
    → resolve o (confirmed e) ≡ ok e
confirms_self o e code nonneg valid amount currency range =
    (resolve-confirmed_iff o e e range).1 (record {
      trusted = code;
      nonneg = nonneg;
      consistent = valid;
      same_amount = amount;
      same_currency = Inherits-to_upper o.currency e.currency currency;
      result = ground arith;
    })

amount_effect-IsConsistent :
    (c : Text) (n d : ℕ) → IsCurrency c → d ≤ n → IsConsistent (amount_effect c n d)
unfolding ◌+ℤ◌
amount_effect-IsConsistent c n d code h = record {
  known = refl;
  currency = to_upper-IsCurrency c code;
  discount_nonneg = omega arith;
  payable_nonneg = omega arith;
  sum = ground arith;
  free = λ e. absurd (cc);
}

percentage_effect-IsConsistent :
    (c : Text) (n b : ℕ) → IsCurrency c → b ≤ 10000 → IsConsistent (percentage_effect c n b)
unfolding ◌+ℤ◌
percentage_effect-IsConsistent c n b code h = record {
  known = ground arith;
  currency = to_upper-IsCurrency c code;
  discount_nonneg = omega arith;
  payable_nonneg = omega arith;
  sum = ground (arith, floor_le n b h);
  free = λ e. ground arith;
}

-- What CalculateAmount returns for an original amount in the range of int64, Resolve confirms
-- unchanged against that original.
pub resolve-calculate_amount :
    (original discount : Money) (e : DiscountEffect)
    → IsInt64 original.amount
    → calculate_amount original discount ≡ ok e
    → resolve original (confirmed e) ≡ ok e
resolve-calculate_amount o d e range h =
    let k = (calculate_amount-eq-ok_iff o d e range).0 h in
    rw k.effect (
      confirms_self o (amount_effect o.currency k.n k.d) k.original_currency (ground arith)
        (amount_effect-IsConsistent o.currency k.n k.d k.original_currency k.covered)
        (sym k.original_nonneg) refl
        (record { original = ground arith; discount = ground arith; payable = ground arith }))

-- What CalculatePercentage returns for an amount in the range of int64, Resolve confirms unchanged
-- against that amount.
pub resolve-calculate_percentage :
    (original : Money) (basis_points : ℤ) (e : DiscountEffect)
    → IsInt64 original.amount
    → calculate_percentage original basis_points ≡ ok e
    → resolve original (confirmed e) ≡ ok e
resolve-calculate_percentage o b e range h =
    let k = (calculate_percentage-eq-ok_iff o b e range).0 h in
    rw k.effect (
      confirms_self o (percentage_effect o.currency k.n k.b) k.currency (ground arith)
        (percentage_effect-IsConsistent o.currency k.n k.b k.currency k.bounded)
        (sym k.original_nonneg) refl
        (record {
          original = ground arith;
          discount = ground (arith, floor_le k.n k.b k.bounded);
          payable = ground arith;
        }))

-- A resolved effect is confirmed unchanged by resolving it again.
pub resolve_idempotent :
    (original : Money) (e r : DiscountEffect)
    → InRange e
    → resolve original (confirmed e) ≡ ok r
    → resolve original (confirmed r) ≡ ok r
resolve_idempotent o e r range h =
    let k = (resolve-confirmed_iff o e r range).0 h in
    rw k.result (
      confirms_self o (record e { currency = to_upper o.currency }) k.trusted k.nonneg
        (record {
          known = k.consistent.known;
          currency = to_upper-IsCurrency o.currency k.trusted;
          discount_nonneg = k.consistent.discount_nonneg;
          payable_nonneg = k.consistent.payable_nonneg;
          sum = k.consistent.sum;
          free = k.consistent.free;
        })
        k.same_amount refl
        (record { original = range.original; discount = range.discount; payable = range.payable }))
