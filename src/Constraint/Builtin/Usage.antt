-- ===== src/Constraint/Builtin/Usage.antt =====
-- constraint/builtin_usage.go. `decode` is json.Unmarshal at the parameters of the evaluator.
pub mod Laws
use go_benefit.Prelude.{some, none, [], ◌∷◌}
use go_benefit.Int64.{ℤ, pos, ltb_ℤ, leb_ℤ}
use go_benefit.Text.{Text, bytes}
use go_benefit.Errors.{Result, ok, err}
use go_benefit.Core.Diagnostic.{Reason, Value}
use go_benefit.Core.Constraint.{ConstraintDecision, unmarshal_params}
use go_benefit.Constraint.Types.{Input, Evaluator}
use go_benefit.Constraint.Builtin.{invalid_constraint, constraint_decision}
use go_benefit.Prelude.{if◌then◌else◌}

pub record RedemptionLimitParams : Type 0 where
  pub max_count : ℤ

-- The decision for decoded parameters.
unfoldable pub limit_decision : RedemptionLimitParams → Input → ConstraintDecision
unfolding invalid_constraint constraint_decision
limit_decision params input =
    if leb_ℤ params.max_count (pos 0)
    then invalid_constraint (Reason.text (bytes "max_count must be greater than zero"))
    else if ltb_ℤ input.benefit.usage.redeemed_count (pos 0)
    then invalid_constraint (Reason.text (bytes "redeemed_count must not be negative"))
    else constraint_decision (ltb_ℤ input.benefit.usage.redeemed_count params.max_count)
        (Reason.text (bytes "redemption count would exceed the limit"))
        (some (
          (bytes "redeemed_count", Value.int input.benefit.usage.redeemed_count)
          ∷ (bytes "max_count", Value.int params.max_count)
          ∷ []))

unfoldable pub evaluate_redemption_limit : (Text → Result RedemptionLimitParams) → Evaluator
unfolding limit_decision
evaluate_redemption_limit decode ctx constraint input = elim ctx.ctx_err [
  | some e ↦ err e
  | none ↦ elim (unmarshal_params (some decode) constraint) [
    | err e ↦ ok (invalid_constraint (Reason.error_text e))
    | ok params ↦ ok (limit_decision params input)
  ]
]
