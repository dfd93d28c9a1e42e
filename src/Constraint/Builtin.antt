-- ===== src/Constraint/Builtin.antt =====
-- constraint/builtin.go: the decisions of the built-in evaluators.
pub mod Time
pub mod Usage
pub mod Amount
pub mod Scope
pub mod Register
use go_benefit.Prelude.{Bool, true, false, none, if◌then◌else◌}
use go_benefit.Core.Diagnostic.{Reason, Details}
use go_benefit.Core.Constraint.{
  ConstraintDecision, ConstraintDecisionCode, constraint_satisfied, constraint_unsatisfied,
}

unfoldable pub invalid_constraint : Reason → ConstraintDecision
unfolding constraint_unsatisfied
invalid_constraint message = constraint_unsatisfied ConstraintDecisionCode.invalid message none

unfoldable pub constraint_decision : Bool → Reason → Details → ConstraintDecision
unfolding constraint_unsatisfied constraint_satisfied
constraint_decision satisfied reason details =
    if satisfied
    then constraint_satisfied
    else constraint_unsatisfied ConstraintDecisionCode.unsatisfied reason details
