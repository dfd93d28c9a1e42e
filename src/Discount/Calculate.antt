-- ===== src/Discount/Calculate.antt =====
-- discount/calculate.go
pub mod Exact
pub mod Results
use go_benefit.Prelude.{Bool, true, false, not, ◌&&◌, ◌||◌, is_nil, ◌==◌, if◌then◌else◌}
use go_benefit.Int64.{ℤ, pos, ltb_ℤ, int_eq, add64, sub64, mul64, quo64, rem64}
use go_benefit.Text.Fold.{to_upper, equal_fold}
use go_benefit.Errors.{
  Result, ok, err, ◌>>=◌, ◌>>◌, fail_if, sentinel, err_currency_mismatch, err_invalid_amount,
  err_discount_exceeds_original, err_invalid_basis_points,
}
use go_benefit.Core.Money.{Money, DiscountEffect, DiscountEffectType, validate_money}

unfoldable pub calculate_amount : Money → Money → Result DiscountEffect
calculate_amount original discount = do
  validate_money original
  validate_money discount
  fail_if (not (is_nil discount.currency) && not (equal_fold original.currency discount.currency))
      (sentinel err_currency_mismatch)
  fail_if (ltb_ℤ original.amount (pos 0) || ltb_ℤ discount.amount (pos 0))
      (sentinel err_invalid_amount)
  fail_if (ltb_ℤ original.amount discount.amount) (sentinel err_discount_exceeds_original)
  ok (record {
    effect_type = DiscountEffectType.amount;
    currency = to_upper original.currency;
    original_amount = original.amount;
    discount_amount = discount.amount;
    payable_amount = sub64 original.amount discount.amount;
  })

-- original.Amount/10000*basisPoints + original.Amount%10000*basisPoints/10000
unfoldable pub percentage_of : ℤ → ℤ → ℤ
percentage_of amount basis_points =
    add64 (mul64 (quo64 amount (pos 10000)) basis_points)
      (quo64 (mul64 (rem64 amount (pos 10000)) basis_points) (pos 10000))

unfoldable pub calculate_percentage : Money → ℤ → Result DiscountEffect
calculate_percentage original basis_points = do
  validate_money original
  fail_if (ltb_ℤ original.amount (pos 0)) (sentinel err_invalid_amount)
  fail_if (ltb_ℤ basis_points (pos 0) || ltb_ℤ (pos 10000) basis_points)
      (sentinel err_invalid_basis_points)
  let discount = percentage_of original.amount basis_points
  ok (record {
    effect_type =
        if basis_points == pos 10000
        then DiscountEffectType.free
        else DiscountEffectType.percentage;
    currency = to_upper original.currency;
    original_amount = original.amount;
    discount_amount = discount;
    payable_amount = sub64 original.amount discount;
  })
