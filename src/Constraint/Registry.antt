-- ===== src/Constraint/Registry.antt =====
-- constraint/registry.go. A registry is a map from types to evaluators; a nil *Registry is `none`.
-- The methods hold the lock for one read or one check and write, so each is one step on the map.
pub mod Report
pub mod Decisions
pub mod State
pub mod Listing
pub mod Concurrent
pub mod Racing
use go_benefit.Prelude.{
  ℕ, ◌+◌, Bool, true, false, not, Option, none, some, List, [], ◌∷◌, ◌++◌, is_some, if◌then◌else◌,
  ◌==◌,
}
use go_benefit.Text.{Text, bytes, text_eq}
use go_benefit.Text.Order.{sort_by}
use go_benefit.Dict.{Dict, lookup, contains, insert, delete, keys}
use go_benefit.Errors.{
  Result, ok, err, ◌>>=◌, ◌>>◌, fail_if, errorf, sentinel, constraint_err_nil_registry,
  constraint_err_already_registered, err_invalid_evaluator,
}
use go_benefit.Core.Diagnostic.{Reason, no_diagnostic, is_empty, no_reason}
use go_benefit.Core.Constraint.{
  Constraint, ConstraintType, ConstraintDecision, ConstraintDecisionCode, decision_code_eq,
  ConstraintReport, ConstraintReportStatus, constraint_unsatisfied, is_satisfied, is_recognized,
  validate_constraint_type, bare_report,
}
use go_benefit.Constraint.Types.{Context, Input, Evaluator, EvaluatorValue, live}

abbrev pub Registry : Type 0
Registry = Dict ConstraintType Evaluator

abbrev pub new_registry : Registry
new_registry = []

-- What happens between Lock and Unlock.
unfoldable pub add : ConstraintType → Evaluator → Registry → Result Registry
add typ evaluator evaluators = do
  fail_if (contains typ evaluators) (errorf "%w: %q" (sentinel constraint_err_already_registered))
  ok (insert typ evaluator evaluators)

unfoldable pub register : Option Registry → ConstraintType → EvaluatorValue → Result Registry
unfolding add live
register none typ evaluator = err (sentinel constraint_err_nil_registry)
register (some evaluators) typ evaluator = do
  validate_constraint_type typ
  elim (live evaluator) [
    | none ↦ err (errorf "%w: evaluator for constraint %q is nil" (sentinel err_invalid_evaluator))
    | some f ↦ add typ f evaluators
  ]

unfoldable pub unregister : Option Registry → ConstraintType → Option Registry × Bool
unregister none typ = (none, false)
unregister (some evaluators) typ = (some (delete typ evaluators), contains typ evaluators)

unfoldable pub get : Option Registry → ConstraintType → Option Evaluator
get none typ = none
get (some evaluators) typ = lookup typ evaluators

unfoldable pub types : Option Registry → List ConstraintType
unfolding sort_by
types none = []
types (some evaluators) = sort_by (λ typ. typ) (keys evaluators)

-- The empty reason where the code is one that an evaluator may return.
unfoldable pub invalid_decision_code_reason : ConstraintDecisionCode → Reason
invalid_decision_code_reason ConstraintDecisionCode.satisfied = no_reason
invalid_decision_code_reason ConstraintDecisionCode.unsatisfied = no_reason
invalid_decision_code_reason ConstraintDecisionCode.invalid = no_reason
invalid_decision_code_reason ConstraintDecisionCode.error = no_reason
invalid_decision_code_reason ConstraintDecisionCode.empty =
    Reason.text (bytes "constraint evaluator returned an empty result code")
invalid_decision_code_reason ConstraintDecisionCode.unrecognized =
    Reason.text
      (bytes "registered constraint evaluator returned the reserved unrecognized result code")
invalid_decision_code_reason (ConstraintDecisionCode.other code) =
    Reason.sprintf "constraint evaluator returned invalid result code %q"

abbrev pub with_type : ConstraintType → ConstraintDecision → ConstraintDecision
with_type typ d = record d { constraint_type = typ }

-- A negative decision with no details, under the type of the constraint.
abbrev pub refusal : ConstraintType → ConstraintDecisionCode → Reason → ConstraintDecision
refusal typ code reason = with_type typ (constraint_unsatisfied code reason none)

-- What Evaluate makes of the decision of an evaluator that returned no error.
unfoldable pub settle : ConstraintType → ConstraintDecision → ConstraintDecision
unfolding invalid_decision_code_reason constraint_unsatisfied
settle typ d =
    let reason = invalid_decision_code_reason d.code in
    if not (is_empty reason)
    then refusal typ ConstraintDecisionCode.error reason
    else if is_satisfied d
    then record d { constraint_type = typ; diagnostic = no_diagnostic }
    else if is_empty d.diagnostic.reason
    then refusal typ ConstraintDecisionCode.error
        (Reason.text (bytes "constraint evaluator returned a negative decision without a reason"))
    else with_type typ d

unfoldable pub evaluate : Option Registry → Context → Constraint → Input → ConstraintDecision
unfolding get settle
evaluate r ctx constraint input = elim (get r constraint.constraint_type) [
  | none ↦
      refusal constraint.constraint_type ConstraintDecisionCode.unrecognized
        (Reason.sprintf "constraint type %q is not registered")
  | some evaluator ↦ elim (evaluator ctx constraint input) [
    | err e ↦
        refusal constraint.constraint_type ConstraintDecisionCode.error
          (Reason.text (bytes "constraint evaluator failed"))
    | ok d ↦ settle constraint.constraint_type d
  ]
]

-- One round of EvaluateAll.
unfoldable pub tally : ConstraintReport → ConstraintDecision → ConstraintReport
tally report d = record {
  status = if is_satisfied d then report.status else ConstraintReportStatus.unsatisfied;
  violations = if is_satisfied d then report.violations else report.violations ++ d ∷ [];
  unrecognized = if is_recognized d then report.unrecognized else report.unrecognized + 1;
}

module _ (r : Option Registry) (ctx : Context) (input : Input) where
  unfoldable pub evaluate_from : ConstraintReport → List Constraint → ConstraintReport
  unfolding tally evaluate
  evaluate_from report [] = report
  evaluate_from report (c ∷ constraints) =
      evaluate_from (tally report (evaluate r ctx c input)) constraints

  unfoldable pub evaluate_all : List Constraint → ConstraintReport
  unfolding evaluate_from
  evaluate_all = evaluate_from (bare_report ConstraintReportStatus.satisfied)
