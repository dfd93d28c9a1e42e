-- ===== src/Discount/Resolve.antt =====
-- discount/resolve.go
pub mod Laws
pub mod Roundtrip
use go_benefit.Prelude.{Bool, true, false, not, ◌&&◌, ◌||◌, Option, none, some, is_nil, ◌==◌}
use go_benefit.Int64.{ℤ, pos, ltb_ℤ, int_eq}
use go_benefit.Text.Fold.{to_upper, equal_fold}
use go_benefit.Errors.{
  Result, ok, err, ◌>>=◌, ◌>>◌, fail_if, sentinel, err_currency_mismatch, err_invalid_amount,
  err_missing_effect, err_original_amount_mismatch,
}
use go_benefit.Core.Money.{Money, DiscountEffect, validate_money, validate_discount_effect}
use go_benefit.Core.Outcome.{BenefitOutcome}

-- What Resolve does with the effect of the outcome.
unfoldable pub resolve_effect : Money → DiscountEffect → Result DiscountEffect
resolve_effect original effect = do
  validate_discount_effect effect
  fail_if (not (effect.original_amount == original.amount)) (sentinel err_original_amount_mismatch)
  fail_if (not (is_nil effect.currency) && not (equal_fold effect.currency original.currency))
      (sentinel err_currency_mismatch)
  ok (record effect { currency = to_upper original.currency })

unfoldable pub resolve : Money → BenefitOutcome → Result DiscountEffect
unfolding resolve_effect
resolve original outcome = do
  validate_money original
  fail_if (ltb_ℤ original.amount (pos 0)) (sentinel err_invalid_amount)
  elim outcome.discount [
    | none ↦ err (sentinel err_missing_effect)
    | some effect ↦ resolve_effect original effect
  ]
