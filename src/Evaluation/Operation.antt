-- ===== src/Evaluation/Operation.antt =====
-- evaluation/operation.go
pub mod Policies
pub mod Decisions
pub mod Accepted
use go_benefit.Prelude.{
  has, Bool, true, false, not, ◌&&◌, ◌||◌, Option, none, some, List, [], ◌∷◌, ◌++◌, is_nil,
  if◌then◌else◌, ◌==◌,
}
use go_benefit.Text.{bytes}
use go_benefit.Errors.{
  Check, Result, ok, err, ◌>>=◌, ◌>>◌, fail_if, validation_error, sentinel,
  constraint_err_nil_registry,
}
use go_benefit.Core.Diagnostic.{Reason, no_diagnostic, new_diagnostic}
use go_benefit.Core.Constraint.{
  Constraint, ConstraintReport, ConstraintReportStatus, report_status_eq, bare_report,
  is_satisfied_report,
}
use go_benefit.Core.Operation.{
  Operation, operation_eq, is_core, OperationMode, mode_eq, OperationCapability,
  OperationCapabilities, OperationPolicy, OperationPolicies, OperationDecision,
  OperationDecisionStatus, validate_capabilities, validate_policies, supports_mode, get_capability,
}
use go_benefit.Constraint.Types.{Context, Input}
use go_benefit.Constraint.Registry.{Registry, evaluate_all}

-- The inner loop over the modes of one policy.
unfoldable pub check_policy_modes : OperationCapability → List OperationMode → Check
check_policy_modes capability [] = ok tt
check_policy_modes capability (mode ∷ modes) = do
  fail_if (not (supports_mode capability mode))
      (validation_error "operation %q policy targets unsupported mode %q")
  check_policy_modes capability modes

unfoldable pub check_policy : OperationCapabilities → OperationPolicy → Check
unfolding check_policy_modes
check_policy capabilities policy = elim (get_capability capabilities policy.operation) [
  | none ↦ err (validation_error "operation policy targets unsupported operation %q")
  | some capability ↦ check_policy_modes capability policy.match_modes
]

unfoldable pub validate_policies_against_capabilities :
    OperationCapabilities → OperationPolicies → Check
unfolding check_policy
validate_policies_against_capabilities capabilities [] = ok tt
validate_policies_against_capabilities capabilities (policy ∷ policies) = do
  check_policy capabilities policy
  validate_policies_against_capabilities capabilities policies

unfoldable pub policy_matches : OperationPolicy → Operation → OperationMode → Bool
policy_matches policy operation mode =
    policy.operation == operation
    && (is_nil policy.match_modes
        || not (mode == OperationMode.empty) && has policy.match_modes mode)

unfoldable pub unsupported_decision : Operation → OperationMode → Reason → OperationDecision
unsupported_decision operation mode reason = record {
  operation = operation;
  mode = mode;
  status = OperationDecisionStatus.unsupported;
  constraints = bare_report ConstraintReportStatus.unevaluated;
  diagnostic = new_diagnostic reason none;
}

-- The loop over the policies: `none` where a matching policy disables the operation, else the
-- constraints of the matching policies, in order.
unfoldable pub collect :
    Operation → OperationMode → List Constraint → OperationPolicies → Option (List Constraint)
unfolding policy_matches
collect operation mode constraints [] = some constraints
collect operation mode constraints (policy ∷ policies) =
    let rest =
      collect operation mode
        (if policy_matches policy operation mode
          then constraints ++ policy.constraints
          else constraints)
        policies in
    if policy_matches policy operation mode && policy.disabled then none else rest

-- The decision from the report of the collected constraints.
unfoldable pub reported : Operation → OperationMode → ConstraintReport → OperationDecision
reported operation mode report = record {
  operation = operation;
  mode = mode;
  status =
      if is_satisfied_report report
      then OperationDecisionStatus.eligible
      else OperationDecisionStatus.ineligible;
  constraints = report;
  diagnostic =
      if is_satisfied_report report
      then no_diagnostic
      else new_diagnostic (Reason.text (bytes "operation constraints are unsatisfied")) none;
}

-- What follows the argument checks.
unfoldable pub decide_operation :
    Context
    → Registry
    → OperationCapabilities
    → OperationPolicies
    → Operation
    → OperationMode
    → Input
    → OperationDecision
unfolding collect reported unsupported_decision
decide_operation ctx registry capabilities policies operation mode input =
    elim (get_capability capabilities operation) [
      | none ↦
          unsupported_decision operation mode (Reason.text (bytes "operation is not supported"))
      | some capability ↦
          if not (mode == OperationMode.empty) && not (supports_mode capability mode)
          then unsupported_decision operation mode
              (Reason.text (bytes "operation mode is not supported"))
          else elim (collect operation mode [] policies) [
            | none ↦
                unsupported_decision operation mode
                  (Reason.text (bytes "operation is disabled for this benefit"))
            | some constraints ↦
                reported operation mode (evaluate_all (some registry) ctx input constraints)
          ]
    ]

-- The checks of the arguments, and then the decision. A nil registry is `none`.
unfoldable pub evaluate_operation :
    Context
    → Option Registry
    → OperationCapabilities
    → OperationPolicies
    → Operation
    → OperationMode
    → Input
    → Result OperationDecision
unfolding validate_policies_against_capabilities decide_operation is_core
evaluate_operation ctx none capabilities policies operation mode input = do
  fail_if (is_core operation)
      (validation_error "core operation %q does not require capability evaluation")
  err (sentinel constraint_err_nil_registry)
evaluate_operation ctx (some registry) capabilities policies operation mode input = do
  fail_if (is_core operation)
      (validation_error "core operation %q does not require capability evaluation")
  validate_capabilities capabilities
  validate_policies policies
  validate_policies_against_capabilities capabilities policies
  ok (decide_operation ctx registry capabilities policies operation mode input)
