-- ===== src/Core/Outcome.antt =====
-- outcome.go: what applying or reversing a benefit delivers.
use go_benefit.Prelude.{Bool, not, ◌&&◌, Option, none, some, is_some}
use go_benefit.Int64.{pos, ltb_ℤ}
use go_benefit.Errors.{Check, ok, ◌>>◌, fail_if, validation_error}
use go_benefit.Core.Money.{Money, DiscountEffect, validate_money, validate_discount_effect}

pub record BenefitOutcome : Type 0 where
  pub discount : Option DiscountEffect

abbrev pub is_zero_outcome : BenefitOutcome → Bool
is_zero_outcome o = not (is_some o.discount)

unfoldable pub validate_outcome : BenefitOutcome → Check
validate_outcome o = elim o.discount [ none ↦ ok tt | some e ↦ validate_discount_effect e ]

pub record BenefitRestoration : Type 0 where
  pub money : Option Money

abbrev pub is_zero_restoration : BenefitRestoration → Bool
is_zero_restoration r = not (is_some r.money)

unfoldable pub validate_restoration : BenefitRestoration → Check
validate_restoration r = elim r.money [
  | none ↦ ok tt
  | some m ↦ do
    validate_money m
    fail_if (ltb_ℤ m.amount (pos 0)) (validation_error "restored amount must not be negative")
]

pub record ReversalOutcome : Type 0 where
  pub reversed : BenefitOutcome
  pub restored : BenefitRestoration

abbrev pub is_zero_reversal_outcome : ReversalOutcome → Bool
is_zero_reversal_outcome o = is_zero_outcome o.reversed && is_zero_restoration o.restored

unfoldable pub validate_reversal_outcome : ReversalOutcome → Check
validate_reversal_outcome o = do validate_outcome o.reversed; validate_restoration o.restored
