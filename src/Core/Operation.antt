-- ===== src/Core/Operation.antt =====
-- operation.go: driver capabilities, benefit-specific policies and operation decisions.
pub mod Valid
use go_benefit.Prelude.{
  ℕ, Bool, true, false, not, ◌&&◌, ◌||◌, Option, none, some, List, [], ◌∷◌, is_nil, has, Eq, ◌==◌,
  eq_of_discrete, if◌then◌else◌, String,
}
use go_benefit.Text.{Text}
use go_benefit.Errors.{Check, Result, ok, err, ◌>>=◌, ◌>>◌, fail_if, validation_error}
use go_benefit.Core.Diagnostic.{Diagnostic, is_empty, has_details}
use go_benefit.Core.Constraint.{
  Constraint, ConstraintReport, ConstraintReportStatus, report_status_eq,
}
use native.Mathlib.Decide.{ℕ_discrete}

-- `empty` is the empty string, `other` any string that is not a named constant.
pub data Operation : Type 0 where
  empty inspect evaluate redeem reverse : Operation
  other : Text → Operation

unfoldable pub Operation-discrete : Discrete Operation
Operation-discrete = hlevel ℕ_discrete

instance abbrev pub operation_eq : Eq Operation
operation_eq = eq_of_discrete Operation-discrete

unfoldable pub is_core : Operation → Bool
is_core Operation.inspect = true
is_core Operation.evaluate = true
is_core Operation.redeem = true
is_core _ = false

pub data OperationMode : Type 0 where
  empty full partial : OperationMode
  other : Text → OperationMode

unfoldable pub OperationMode-discrete : Discrete OperationMode
OperationMode-discrete = hlevel ℕ_discrete

instance abbrev pub mode_eq : Eq OperationMode
mode_eq = eq_of_discrete OperationMode-discrete

pub record OperationCapability : Type 0 where
  pub operation : Operation
  pub modes : List OperationMode

abbrev pub OperationCapabilities : Type 0
OperationCapabilities = List OperationCapability

pub record OperationPolicy : Type 0 where
  pub operation : Operation
  pub match_modes : List OperationMode
  pub constraints : List Constraint
  pub remark : Text
  pub disabled : Bool

abbrev pub OperationPolicies : Type 0
OperationPolicies = List OperationPolicy

unfoldable pub contains_operation_mode : List OperationMode → OperationMode → Bool
contains_operation_mode modes target = has modes target

unfoldable pub validate_optional_operation : Operation → Check
unfolding is_core
validate_optional_operation operation = do
  fail_if (operation == Operation.empty) (validation_error "operation at index %d is empty")
  fail_if (is_core operation) (validation_error "core operation %q must not be declared")

-- The loop of validateOperationModes; `seen` holds the modes that it has passed.
unfoldable pub validate_modes_from : Operation → List OperationMode → List OperationMode → Check
validate_modes_from operation seen [] = ok tt
validate_modes_from operation seen (mode ∷ modes) = do
  fail_if (mode == OperationMode.empty) (validation_error "operation %q has an empty mode")
  fail_if (has seen mode) (validation_error "operation %q mode %q is duplicated")
  fail_if
      (operation == Operation.reverse
        && not (mode == OperationMode.full)
        && not (mode == OperationMode.partial))
      (validation_error "reverse operation has unsupported mode %q")
  validate_modes_from operation (mode ∷ seen) modes

unfoldable pub validate_operation_modes : Operation → List OperationMode → Check
unfolding validate_modes_from
validate_operation_modes operation modes = validate_modes_from operation [] modes

-- The loop of OperationCapabilities.Validate; `seen` holds the operations that it has passed.
unfoldable pub validate_capabilities_from : List Operation → OperationCapabilities → Check
unfolding validate_optional_operation validate_operation_modes contains_operation_mode
validate_capabilities_from seen [] = ok tt
validate_capabilities_from seen (capability ∷ rest) = do
  validate_optional_operation capability.operation
  fail_if (has seen capability.operation) (validation_error "operation %q is duplicated")
  validate_operation_modes capability.operation capability.modes
  fail_if
      (capability.operation == Operation.reverse
        && not (contains_operation_mode capability.modes OperationMode.full))
      (validation_error "reverse capability must include full mode")
  validate_capabilities_from (capability.operation ∷ seen) rest

unfoldable pub validate_capabilities : OperationCapabilities → Check
unfolding validate_capabilities_from
validate_capabilities capabilities = validate_capabilities_from [] capabilities

unfoldable pub validate_policy : OperationPolicy → Check
unfolding validate_optional_operation validate_operation_modes
validate_policy policy = do
  validate_optional_operation policy.operation
  validate_operation_modes policy.operation policy.match_modes
  fail_if (policy.disabled && not (is_nil policy.constraints))
      (validation_error "operation %q policy cannot be disabled and conditional")
  fail_if (not policy.disabled && is_nil policy.constraints)
      (validation_error "operation %q policy has no effect")

unfoldable pub validate_policies : OperationPolicies → Check
unfolding validate_policy
validate_policies [] = ok tt
validate_policies (policy ∷ policies) = do validate_policy policy; validate_policies policies

unfoldable pub supports_mode : OperationCapability → OperationMode → Bool
unfolding contains_operation_mode
supports_mode capability mode = contains_operation_mode capability.modes mode

-- OperationCapabilities.Get
unfoldable pub get_capability : OperationCapabilities → Operation → Option OperationCapability
get_capability [] operation = none
get_capability (capability ∷ rest) operation =
    if capability.operation == operation then some capability else get_capability rest operation

pub data OperationDecisionStatus : Type 0 where
  unsupported ineligible eligible : OperationDecisionStatus
  other : Text → OperationDecisionStatus

unfoldable pub OperationDecisionStatus-discrete : Discrete OperationDecisionStatus
OperationDecisionStatus-discrete = hlevel ℕ_discrete

instance abbrev pub operation_status_eq : Eq OperationDecisionStatus
operation_status_eq = eq_of_discrete OperationDecisionStatus-discrete

unfoldable pub validate_operation_status : OperationDecisionStatus → Check
validate_operation_status (OperationDecisionStatus.other s) =
    err (validation_error "invalid operation decision status %q")
validate_operation_status _ = ok tt

pub record OperationDecision : Type 0 where
  pub operation : Operation
  pub mode : OperationMode
  pub status : OperationDecisionStatus
  pub constraints : ConstraintReport
  pub diagnostic : Diagnostic

abbrev pub is_supported : OperationDecision → Bool
is_supported d = not (d.status == OperationDecisionStatus.unsupported)

abbrev pub is_eligible : OperationDecision → Bool
is_eligible d = d.status == OperationDecisionStatus.eligible

-- The switch of OperationDecision.Validate over the status.
unfoldable pub validate_decision_payload : OperationDecisionStatus → OperationDecision → Check
validate_decision_payload OperationDecisionStatus.unsupported d =
    fail_if (not (d.constraints.status == ConstraintReportStatus.unevaluated))
      (validation_error "unsupported operation has evaluated constraints")
validate_decision_payload OperationDecisionStatus.ineligible d =
    fail_if (not (d.constraints.status == ConstraintReportStatus.unsatisfied))
      (validation_error "ineligible operation has no unsatisfied constraints")
validate_decision_payload OperationDecisionStatus.eligible d = do
  fail_if (not (d.constraints.status == ConstraintReportStatus.satisfied))
      (validation_error "eligible operation has unsatisfied constraints")
  fail_if (not (is_empty d.diagnostic.reason) || has_details d.diagnostic.details)
      (validation_error "eligible operation has diagnostic information")
validate_decision_payload (OperationDecisionStatus.other s) d = ok tt

unfoldable pub validate_operation_decision : OperationDecision → Check
unfolding validate_operation_status validate_decision_payload
validate_operation_decision d = do
  fail_if (d.operation == Operation.empty)
      (validation_error "operation decision operation is empty")
  validate_operation_status d.status
  validate_decision_payload d.status d
