-- ===== src/Core/Constraint.antt =====
-- constraint.go: constraint definitions, decisions and reports.
use go_benefit.Prelude.{
  ℕ, Bool, not, ◌&&◌, ◌||◌, Option, none, some, List, [], is_nil, Eq, ◌==◌, eq_of_discrete,
  if◌then◌else◌, nat_eq,
}
use go_benefit.Text.{Text}
use go_benefit.Errors.{
  Check, Result, ok, err, ◌>>=◌, ◌>>◌, fail_if, validation_error, errorf, errorf_two, sentinel,
  err_invalid_constraint_params,
}
use go_benefit.Core.Identifier.{validate_namespaced_value}
use go_benefit.Core.Diagnostic.{Reason, Details, Diagnostic, no_diagnostic, new_diagnostic}
use native.Mathlib.Decide.{ℕ_discrete}

abbrev pub ConstraintType : Type 0
ConstraintType = Text

unfoldable pub validate_constraint_type : ConstraintType → Check
validate_constraint_type t = validate_namespaced_value t

-- `params` is raw JSON; empty where there is none.
pub record Constraint : Type 0 where
  pub constraint_type : ConstraintType
  pub params : Text
  pub remark : Text

-- `marshal` is json.Marshal at the type of the parameters.
unfoldable pub new_constraint {ℓ} :
    {P : Type ℓ} → (P → Result Text) → ConstraintType → Text → Option P → Result Constraint
new_constraint marshal typ remark params = do
  fail_if (is_nil typ) (validation_error "constraint type is empty")
  raw ← elim params [
    | none ↦ ok []
    | some p ↦ elim (marshal p) [
      | ok raw ↦ ok raw
      | err e ↦
          err (errorf_two "%w: encode constraint %q: %w" (sentinel err_invalid_constraint_params) e)
    ]
  ]
  ok (record { constraint_type = typ; params = raw; remark = remark })

-- `unmarshal` is json.Unmarshal at the type of the destination; `none` is a nil destination.
unfoldable pub unmarshal_params {ℓ} :
    {P : Type ℓ} → Option (Text → Result P) → Constraint → Result P
unmarshal_params none c = err (validation_error "constraint params destination is nil")
unmarshal_params (some unmarshal) c = do
  fail_if (is_nil c.params)
      (errorf "%w: constraint params are empty" (sentinel err_invalid_constraint_params))
  elim (unmarshal c.params) [
    | ok p ↦ ok p
    | err e ↦
        err
          (errorf_two "%w: unmarshal constraint %q: %w" (sentinel err_invalid_constraint_params) e)
  ]

pub data ConstraintDecisionCode : Type 0 where
  empty satisfied unsatisfied unrecognized invalid error : ConstraintDecisionCode
  other : Text → ConstraintDecisionCode

unfoldable pub ConstraintDecisionCode-discrete : Discrete ConstraintDecisionCode
ConstraintDecisionCode-discrete = hlevel ℕ_discrete

instance abbrev pub decision_code_eq : Eq ConstraintDecisionCode
decision_code_eq = eq_of_discrete ConstraintDecisionCode-discrete

pub record ConstraintDecision : Type 0 where
  pub constraint_type : ConstraintType
  pub code : ConstraintDecisionCode
  pub diagnostic : Diagnostic

-- ConstraintDecisionCode.Decision: the registry assigns the type later.
unfoldable pub decision : ConstraintDecisionCode → Reason → Details → ConstraintDecision
decision code reason details = record {
  constraint_type = [];
  code = code;
  diagnostic = new_diagnostic reason details;
}

unfoldable pub constraint_satisfied : ConstraintDecision
constraint_satisfied = record {
  constraint_type = [];
  code = ConstraintDecisionCode.satisfied;
  diagnostic = no_diagnostic;
}

unfoldable pub constraint_unsatisfied :
    ConstraintDecisionCode → Reason → Details → ConstraintDecision
unfolding decision
constraint_unsatisfied code reason details =
    decision
      (if code == ConstraintDecisionCode.empty || code == ConstraintDecisionCode.satisfied
        then ConstraintDecisionCode.unsatisfied
        else code)
      reason details

abbrev pub is_satisfied : ConstraintDecision → Bool
is_satisfied d = d.code == ConstraintDecisionCode.satisfied

abbrev pub is_recognized : ConstraintDecision → Bool
is_recognized d = not (d.code == ConstraintDecisionCode.unrecognized)

pub data ConstraintReportStatus : Type 0 where
  empty unevaluated satisfied unsatisfied : ConstraintReportStatus
  other : Text → ConstraintReportStatus

unfoldable pub ConstraintReportStatus-discrete : Discrete ConstraintReportStatus
ConstraintReportStatus-discrete = hlevel ℕ_discrete

instance abbrev pub report_status_eq : Eq ConstraintReportStatus
report_status_eq = eq_of_discrete ConstraintReportStatus-discrete

pub record ConstraintReport : Type 0 where
  pub status : ConstraintReportStatus
  pub violations : List ConstraintDecision
  pub unrecognized : ℕ

-- ConstraintReport{} and ConstraintReport{Status: …}
abbrev pub bare_report : ConstraintReportStatus → ConstraintReport
bare_report status = record { status = status; violations = []; unrecognized = 0 }

abbrev pub is_zero_report : ConstraintReport → Bool
is_zero_report r =
    r.status == ConstraintReportStatus.empty && is_nil r.violations && r.unrecognized == 0

abbrev pub is_evaluated : ConstraintReport → Bool
is_evaluated r =
    r.status == ConstraintReportStatus.satisfied || r.status == ConstraintReportStatus.unsatisfied

abbrev pub is_satisfied_report : ConstraintReport → Bool
is_satisfied_report r = r.status == ConstraintReportStatus.satisfied
