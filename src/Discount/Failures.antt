-- ===== src/Discount/Failures.antt =====
-- The categories of calculation and resolution errors.
use go_benefit.Prelude.{◌≡◌, inl, inr, Bool, true, List, [], ◌∷◌, any, arith, Option-cases}
use go_benefit.Int64.{ℤ}
use go_benefit.Text.{Text}
use go_benefit.Errors.{
  Error, Sentinel, err, is_error, err_invalid_currency, err_currency_mismatch, err_invalid_amount,
  err_discount_exceeds_original, err_invalid_basis_points,
}
use go_benefit.Errors.Laws.{IsValidation}
use go_benefit.Core.Money.{Money, validate_money, validate_currency_code}
use go_benefit.Core.Outcome.{BenefitOutcome}
use go_benefit.Core.Info.Failures.{validate_discount_effect-error}
use go_benefit.Discount.Calculate.{calculate_amount, calculate_percentage}
use go_benefit.Discount.Resolve.{resolve}

-- The error matches one of the variables.
abbrev pub matches_any : Error → List Sentinel → Bool
matches_any e = any (is_error e)

validate_currency_code-error :
    (code : Text) (e : Error)
    → validate_currency_code code ≡ err e
    → (is_error e err_invalid_currency ≡ true) × IsValidation e
unfolding validate_currency_code is_error
validate_currency_code-error [] e h = absurd (cc)
validate_currency_code-error (c ∷ code) e h = ground arith

-- Every error of CalculateAmount matches ErrValidation, and one of the four documented variables.
pub calculate_amount-error :
    (original discount : Money) (e : Error)
    → calculate_amount original discount ≡ err e
    → IsValidation e
      × (matches_any e (
            err_invalid_currency ∷ err_currency_mismatch ∷ err_invalid_amount
            ∷ err_discount_exceeds_original ∷ [])
          ≡ true)
unfolding calculate_amount validate_money is_error
calculate_amount-error o d e h =
    ground
      (arith, validate_currency_code-error o.currency e, validate_currency_code-error d.currency e)

-- Every error of CalculatePercentage matches ErrValidation, and one of the three documented
-- variables.
pub calculate_percentage-error :
    (original : Money) (basis_points : ℤ) (e : Error)
    → calculate_percentage original basis_points ≡ err e
    → IsValidation e
      × (matches_any e (err_invalid_currency ∷ err_invalid_amount ∷ err_invalid_basis_points ∷ [])
          ≡ true)
unfolding calculate_percentage validate_money is_error
calculate_percentage-error o b e h = ground (arith, validate_currency_code-error o.currency e)

-- Every error of Resolve matches ErrValidation.
pub resolve-error :
    (original : Money) (outcome : BenefitOutcome) (e : Error)
    → resolve original outcome ≡ err e
    → IsValidation e
unfolding resolve validate_money is_error
resolve-error o outcome e h = elim (Option-cases outcome.discount) [
  | inl missing ↦ ground (arith, validate_currency_code-error o.currency e)
  | inr (d, present) ↦
      ground (arith, validate_currency_code-error o.currency e, validate_discount_effect-error d e)
]
