-- ===== src/Constraint/Builtin/Amount.antt =====
-- constraint/builtin_amount.go. `decode` is json.Unmarshal at the parameters of the evaluator.
pub mod Laws
pub mod Satisfied
use go_benefit.Prelude.{
  Bool, true, false, not, ◌&&◌, some, none, Option, [], ◌∷◌, is_nil, if◌then◌else◌,
}
use go_benefit.Int64.{ℤ, pos, ltb_ℤ, leb_ℤ}
use go_benefit.Text.{Text, bytes}
use go_benefit.Text.Fold.{to_upper, equal_fold}
use go_benefit.Errors.{
  Result, ok, err, errorf, sentinel, err_invalid_evaluator, validation_error, ◌>>=◌,
}
use go_benefit.Core.Diagnostic.{Reason, Value}
use go_benefit.Core.Money.{Money, validate_money}
use go_benefit.Core.Constraint.{
  Constraint, ConstraintDecision, ConstraintDecisionCode, decision, unmarshal_params,
}
use go_benefit.Constraint.Types.{Context, Input, Evaluator}
use go_benefit.Constraint.Builtin.{invalid_constraint, constraint_decision}

pub record AmountParams : Type 0 where
  pub amount : ℤ
  pub currency : Text

-- The amount, and whether there is one.
abbrev pub AmountExtractor : Type 0
AmountExtractor = Input → Result (Money × Bool)

-- `extract` is `none` where it is nil.
pub record AmountConstraintEvaluator : Type 0 where
  pub extract : Option AmountExtractor
  pub minimum : Bool

-- Parameters, or the decision that they are invalid.
pub data Decoded : Type 0 where
  params : AmountParams → Decoded
  rejected : ConstraintDecision → Decoded

-- decodeAmountConstraint after the parameters are unmarshalled.
unfoldable pub check_amount_params : AmountParams → Decoded
unfolding invalid_constraint
check_amount_params p =
    if ltb_ℤ p.amount (pos 0)
    then rejected (invalid_constraint (Reason.text (bytes "amount must not be negative")))
    else elim (validate_money (record { amount = pos 0; currency = p.currency })) [
      | err e ↦ rejected (invalid_constraint (Reason.error_text e))
      | ok _ ↦ params (record p { currency = to_upper p.currency })
    ]

unfoldable pub decode_amount_constraint : (Text → Result AmountParams) → Constraint → Decoded
unfolding check_amount_params
decode_amount_constraint decode constraint = elim (unmarshal_params (some decode) constraint) [
  | err e ↦ rejected (invalid_constraint (Reason.error_text e))
  | ok p ↦ check_amount_params p
]

unfoldable pub compare_currency : Text → Text → Option ConstraintDecision
unfolding decision
compare_currency actual required =
    if not (is_nil required) && not (equal_fold actual required)
    then some (
        decision ConstraintDecisionCode.unsatisfied
          (Reason.text (bytes "operation currency does not match the constraint currency"))
          (some (
            (bytes "actual_currency", Value.text actual)
            ∷ (bytes "required_currency", Value.text required)
            ∷ [])))
    else none

-- The comparison with the bound.
unfoldable pub bound_decision : Bool → Money → AmountParams → ConstraintDecision
unfolding constraint_decision
bound_decision true actual p =
    constraint_decision (leb_ℤ p.amount actual.amount)
      (Reason.text (bytes "operation amount is below the minimum"))
      (some (
        (bytes "actual_amount", Value.int actual.amount)
        ∷ (bytes "currency", Value.text p.currency)
        ∷ (bytes "minimum_amount", Value.int p.amount)
        ∷ []))
bound_decision false actual p =
    constraint_decision (leb_ℤ actual.amount p.amount)
      (Reason.text (bytes "operation amount exceeds the maximum"))
      (some (
        (bytes "actual_amount", Value.int actual.amount)
        ∷ (bytes "currency", Value.text p.currency)
        ∷ (bytes "maximum_amount", Value.int p.amount)
        ∷ []))

-- What Evaluate does with an amount that was found.
unfoldable pub judge_amount : Bool → AmountParams → Money → Result ConstraintDecision
unfolding compare_currency bound_decision
judge_amount minimum p actual = elim (validate_money actual) [
  | err e ↦ err (errorf "benefit: invalid operation amount: %w" e)
  | ok _ ↦
      if ltb_ℤ actual.amount (pos 0)
      then err (validation_error "operation amount must not be negative")
      else elim (compare_currency actual.currency p.currency) [
        | some d ↦ ok d
        | none ↦ ok (bound_decision minimum actual p)
      ]
]

-- Evaluate once the extractor is known not to be nil.
unfoldable pub evaluate_with_extractor :
    (Text → Result AmountParams)
    → AmountExtractor
    → Bool
    → Constraint
    → Input
    → Result ConstraintDecision
unfolding decode_amount_constraint judge_amount decision
evaluate_with_extractor decode extract minimum constraint input =
    elim (decode_amount_constraint decode constraint) [
      | rejected d ↦ ok d
      | params p ↦ elim (extract input) [
        | err e ↦ err e
        | ok (actual, found) ↦
            if found
            then judge_amount minimum p actual
            else ok (
                decision ConstraintDecisionCode.unsatisfied
                  (Reason.text (bytes "operation amount is unavailable")) none)
      ]
    ]

unfoldable pub evaluate_amount :
    (Text → Result AmountParams) → AmountConstraintEvaluator → Evaluator
unfolding evaluate_with_extractor
evaluate_amount decode e ctx constraint input = elim ctx.ctx_err [
  | some cancelled ↦ err cancelled
  | none ↦ elim e.extract [
    | none ↦ err (errorf "%w: amount extractor is nil" (sentinel err_invalid_evaluator))
    | some extract ↦ evaluate_with_extractor decode extract e.minimum constraint input
  ]
]

abbrev pub new_minimum_amount_evaluator : Option AmountExtractor → AmountConstraintEvaluator
new_minimum_amount_evaluator extract = record { extract = extract; minimum = true }

abbrev pub new_maximum_amount_evaluator : Option AmountExtractor → AmountConstraintEvaluator
new_maximum_amount_evaluator extract = record { extract = extract; minimum = false }
