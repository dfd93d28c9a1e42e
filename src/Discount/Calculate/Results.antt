-- ===== src/Discount/Calculate/Results.antt =====
-- When CalculateAmount and CalculatePercentage succeed, and with what effect.
use go_benefit.Prelude.{
  ℕ, ◌-◌, ◌*◌, ◌/◌, ◌≤◌, ◌≡◌, refl, ◌↔◌, ◌⊎◌, inl, [], ◌∷◌, arith, if◌then◌else◌, nat_beq,
}
use go_benefit.Int64.{ℤ, pos, negsuc, IsInt64, beq_ℤ}
use go_benefit.Int64.Laws.{sub64_pos}
use go_benefit.Text.{Text}
use go_benefit.Text.Fold.{to_upper, equal_fold_iff}
use go_benefit.Errors.{ok}
use go_benefit.Core.Money.{Money, DiscountEffect, DiscountEffectType, validate_money}
use go_benefit.Core.Money.Valid.{IsCurrency, validate_currency_code_iff}
use go_benefit.Discount.Calculate.{calculate_amount, calculate_percentage}
use go_benefit.Discount.Calculate.Exact.{percentage_of_pos, floor_le}

abbrev pub money : ℤ → Text → Money
money amount currency = record { amount = amount; currency = currency }

-- A discount in no currency, or in that of the original up to case.
abbrev pub Inherits : Text → Text → Type 0
Inherits currency original = (currency ≡ []) ⊎ (to_upper original ≡ to_upper currency)

-- The effect of a discount of d on n.
abbrev pub amount_effect : Text → ℕ → ℕ → DiscountEffect
amount_effect code n d = record {
  effect_type = DiscountEffectType.amount;
  currency = to_upper code;
  original_amount = pos n;
  discount_amount = pos d;
  payable_amount = pos (n - d);
}

-- The effect of b basis points on n: the floor of the exact product, free at all of them.
abbrev pub percentage_effect : Text → ℕ → ℕ → DiscountEffect
percentage_effect code n b = record {
  effect_type = if nat_beq b 10000 then DiscountEffectType.free else DiscountEffectType.percentage;
  currency = to_upper code;
  original_amount = pos n;
  discount_amount = pos (n * b / 10000);
  payable_amount = pos (n - n * b / 10000);
}

pub record AmountCase (original discount : Money) (e : DiscountEffect) : Type 0 where
  pub n : ℕ
  pub d : ℕ
  pub original_nonneg : original.amount ≡ pos n
  pub discount_nonneg : discount.amount ≡ pos d
  pub covered : d ≤ n
  pub original_currency : IsCurrency original.currency
  pub discount_currency : IsCurrency discount.currency
  pub same_currency : Inherits discount.currency original.currency
  pub effect : e ≡ amount_effect original.currency n d

pub record PercentageCase (original : Money) (basis_points : ℤ) (e : DiscountEffect) : Type 0 where
  pub n : ℕ
  pub b : ℕ
  pub original_nonneg : original.amount ≡ pos n
  pub points : basis_points ≡ pos b
  pub bounded : b ≤ 10000
  pub currency : IsCurrency original.currency
  pub effect : e ≡ percentage_effect original.currency n b

-- The cases of a calculation by the signs of its arguments.
amount_by_sign :
    (x y : ℤ) (c k : Text) (e : DiscountEffect)
    → IsInt64 x
    → (calculate_amount (money x c) (money y k) ≡ ok e)
    → AmountCase (money x c) (money y k) e
unfolding calculate_amount validate_money
amount_by_sign (pos n) (pos d) c [] e hx h = record {
  n = n;
  d = d;
  original_nonneg = refl;
  discount_nonneg = refl;
  covered = ground arith;
  original_currency = ground (arith, validate_currency_code_iff c);
  discount_currency = inl refl;
  same_currency = inl refl;
  effect = ground (arith, sub64_pos n d);
}
amount_by_sign (pos n) (pos d) c (k ∷ ks) e hx h = record {
  n = n;
  d = d;
  original_nonneg = refl;
  discount_nonneg = refl;
  covered = ground arith;
  original_currency = ground (arith, validate_currency_code_iff c);
  discount_currency = ground (arith, validate_currency_code_iff (k ∷ ks));
  same_currency = ground (arith, equal_fold_iff c (k ∷ ks));
  effect = ground (arith, sub64_pos n d);
}
amount_by_sign (pos n) (negsuc d) c k e hx h = ground arith
amount_by_sign (negsuc n) y c k e hx h = ground arith

amount_of_case :
    (x y : ℤ) (c k : Text) (e : DiscountEffect)
    → IsInt64 x
    → AmountCase (money x c) (money y k) e
    → (calculate_amount (money x c) (money y k) ≡ ok e)
unfolding calculate_amount validate_money
amount_of_case (pos n) (pos d) c [] e hx h =
    ground (arith, validate_currency_code_iff c, validate_currency_code_iff [], sub64_pos n d)
amount_of_case (pos n) (pos d) c (k ∷ ks) e hx h = ground (
  arith,
  validate_currency_code_iff c,
  validate_currency_code_iff (k ∷ ks),
  equal_fold_iff c (k ∷ ks),
  sub64_pos n d,
)
amount_of_case (pos n) (negsuc d) c k e hx h = ground arith
amount_of_case (negsuc n) y c k e hx h = ground arith

-- For an original amount in the range of int64, CalculateAmount succeeds exactly when both amounts
-- are zero or more, the discount is at most the original, and both currencies are well-formed and
-- agree up to case or the discount's is empty. The effect then has the exact amounts.
pub calculate_amount-eq-ok_iff :
    (original discount : Money) (e : DiscountEffect)
    → IsInt64 original.amount
    → (calculate_amount original discount ≡ ok e) ↔ AmountCase original discount e
calculate_amount-eq-ok_iff o d e h = (
  amount_by_sign o.amount d.amount o.currency d.currency e h,
  amount_of_case o.amount d.amount o.currency d.currency e h,
)

percentage_by_sign :
    (x y : ℤ) (c : Text) (e : DiscountEffect)
    → IsInt64 x
    → (calculate_percentage (money x c) y ≡ ok e) ↔ PercentageCase (money x c) y e
unfolding calculate_percentage validate_money beq_ℤ
percentage_by_sign (pos n) (pos b) c e hx = (
  λ h. record {
    n = n;
    b = b;
    original_nonneg = refl;
    points = refl;
    bounded = ground arith;
    currency = ground (arith, validate_currency_code_iff c);
    effect = ground (arith, percentage_of_pos n b, floor_le n b, sub64_pos n (n * b / 10000));
  },
  λ h. ground (
    arith,
    percentage_of_pos n b,
    floor_le n b,
    sub64_pos n (n * b / 10000),
    validate_currency_code_iff c,
  ),
)
percentage_by_sign (pos n) (negsuc d) c e hx = ground arith
percentage_by_sign (negsuc n) y c e hx = ground arith

-- For an amount in the range of int64, CalculatePercentage succeeds exactly when the amount is zero
-- or more, the basis points are from 0 to 10000 and the currency is well-formed. The discount is
-- then the floor of the exact product of amount and points over 10000, and the effect is free
-- exactly at 10000 points.
pub calculate_percentage-eq-ok_iff :
    (original : Money) (basis_points : ℤ) (e : DiscountEffect)
    → IsInt64 original.amount
    → (calculate_percentage original basis_points ≡ ok e) ↔ PercentageCase original basis_points e
calculate_percentage-eq-ok_iff o b e h = percentage_by_sign o.amount b o.currency e h
