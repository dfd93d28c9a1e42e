-- ===== src/Tests/Discount.antt =====
-- discount/calculate.go and discount/resolve.go on concrete amounts.
use go_benefit.Prelude.{none, some, ◌≡◌, refl, ◌↔◌, arith}
use mathlib.Core.Path.{subst}
use go_benefit.Int64.{ℤ, pos, negsuc, IsInt64}
use go_benefit.Text.{Text, bytes}
use go_benefit.Text.Fold.{to_upper, equal_fold}
use go_benefit.Errors.{ok, err, sentinel, err_missing_effect, err_discount_exceeds_original}
use go_benefit.Core.Money.{
  Money, DiscountEffect, DiscountEffectType, validate_money, validate_discount_effect,
}
use go_benefit.Core.Money.Valid.{IsConsistent, validate_discount_effect_iff}
use go_benefit.Discount.Calculate.{calculate_amount, calculate_percentage, percentage_of}
use go_benefit.Discount.Calculate.Results.{
  money, AmountCase, PercentageCase, calculate_amount-eq-ok_iff, calculate_percentage-eq-ok_iff,
}
use go_benefit.Discount.Resolve.{resolve}
use go_benefit.Discount.Resolve.Laws.{confirmed, InRange, Confirms, resolve-eq-ok_iff}
use go_benefit.Discount.Resolve.Roundtrip.{resolve-calculate_percentage}

abbrev usd : Text
usd = bytes "USD"

abbrev price : Money
price = money (pos 9999) (bytes "usd")

abbrev coupon : Money
coupon = money (pos 500) (bytes "USD")

abbrev half_off : DiscountEffect
half_off = record {
  effect_type = DiscountEffectType.percentage;
  currency = usd;
  original_amount = pos 9999;
  discount_amount = pos 4999;
  payable_amount = pos 5000;
}

abbrev five_off : DiscountEffect
five_off = record {
  effect_type = DiscountEffectType.amount;
  currency = usd;
  original_amount = pos 9999;
  discount_amount = pos 500;
  payable_amount = pos 9499;
}

-- The largest int64 at 99.99 percent: the product of amount and points would overflow.
percentage_of_max : percentage_of (pos 9223372036854775807) (pos 9999) ≡ pos 9222449699651090329
unfolding percentage_of go_benefit.Int64.add64 go_benefit.Int64.mul64 go_benefit.Int64.quo64
    go_benefit.Int64.rem64
percentage_of_max = refl

half_off_run : calculate_percentage price (pos 5000) ≡ ok half_off
unfolding calculate_percentage validate_money go_benefit.Core.Money.validate_currency_code
    go_benefit.Int64.beq_ℤ to_upper percentage_of go_benefit.Int64.sub64 go_benefit.Int64.add64
    go_benefit.Int64.mul64 go_benefit.Int64.quo64 go_benefit.Int64.rem64
half_off_run = refl

five_off_run : calculate_amount price coupon ≡ ok five_off
unfolding calculate_amount validate_money go_benefit.Core.Money.validate_currency_code equal_fold
    to_upper go_benefit.Int64.sub64
five_off_run = refl

too_much_run : calculate_amount coupon price ≡ err (sentinel err_discount_exceeds_original)
unfolding calculate_amount validate_money go_benefit.Core.Money.validate_currency_code equal_fold
too_much_run = refl

missing_run : resolve price (record { discount = none }) ≡ err (sentinel err_missing_effect)
unfolding resolve validate_money go_benefit.Core.Money.validate_currency_code
missing_run = refl

price-IsInt64 : IsInt64 price.amount
price-IsInt64 = omega arith

five_off-InRange : InRange five_off
five_off-InRange = record { original = omega arith; discount = omega arith; payable = omega arith }

calculate_percentage-eq-ok_iff_example :
    (calculate_percentage price (pos 5000) ≡ ok half_off) ↔ PercentageCase price (pos 5000) half_off
calculate_percentage-eq-ok_iff_example =
    calculate_percentage-eq-ok_iff price (pos 5000) half_off price-IsInt64

calculate_amount-eq-ok_iff_example :
    (calculate_amount price coupon ≡ ok five_off) ↔ AmountCase price coupon five_off
calculate_amount-eq-ok_iff_example = calculate_amount-eq-ok_iff price coupon five_off price-IsInt64

five_off-only : (e : DiscountEffect) → (confirmed five_off).discount ≡ some e → InRange e
five_off-only e h = subst InRange (ground arith) five_off-InRange

resolve-eq-ok_iff_example :
    (resolve price (confirmed five_off) ≡ ok five_off)
    ↔ ((e : DiscountEffect) × ((confirmed five_off).discount ≡ some e) × Confirms price e five_off)
resolve-eq-ok_iff_example = resolve-eq-ok_iff price (confirmed five_off) five_off five_off-only

resolve-calculate_percentage_example : resolve price (confirmed half_off) ≡ ok half_off
resolve-calculate_percentage_example =
    resolve-calculate_percentage price (pos 5000) half_off price-IsInt64 half_off_run

validate_discount_effect_iff_example :
    (validate_discount_effect half_off ≡ ok tt) ↔ IsConsistent half_off
validate_discount_effect_iff_example =
    validate_discount_effect_iff half_off (omega arith) (omega arith) (omega arith)
