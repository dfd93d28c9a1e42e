-- ===== src/Evaluation/Eligibility.antt =====
-- evaluation/eligibility.go
pub mod Laws
use go_benefit.Prelude.{Bool, true, false, not, Option, none, some, [], ◌∷◌, if◌then◌else◌, ◌==◌}
use go_benefit.Int64.{pos}
use go_benefit.Time.{Time}
use go_benefit.Core.Diagnostic.{Reason, no_diagnostic, new_diagnostic}
use go_benefit.Core.Status.{Status, status_eq}
use go_benefit.Core.Outcome.{BenefitOutcome}
use go_benefit.Core.Constraint.{
  ConstraintReport, ConstraintReportStatus, report_status_eq, bare_report, is_satisfied_report,
}
use go_benefit.Core.Results.{EvaluationFailure, EvaluationFailureCode, EvaluationResult}
use go_benefit.Constraint.Types.{Context, Input}
use go_benefit.Constraint.Registry.{Registry, evaluate_all}

-- time.Time{} and BenefitOutcome{}
abbrev pub zero_time : Time
zero_time = record { instant = pos 0; location = [] }

abbrev pub no_outcome : BenefitOutcome
no_outcome = record { discount = none }

unfoldable pub inactive_result : EvaluationResult
inactive_result = record {
  eligible = false;
  constraints = bare_report ConstraintReportStatus.unevaluated;
  failure = some (record {
    code = EvaluationFailureCode.benefit_inactive;
    diagnostic = new_diagnostic (Reason.sprintf "benefit status is %q") none;
  });
  outcome = no_outcome;
  expires_at = zero_time;
  evaluation_token = [];
}

unfoldable pub active_result : ConstraintReport → EvaluationResult
active_result report = record {
  eligible = is_satisfied_report report;
  constraints = report;
  failure =
      if is_satisfied_report report
      then none
      else some (record {
        code = EvaluationFailureCode.constraint_unsatisfied;
        diagnostic = no_diagnostic;
      });
  outcome = no_outcome;
  expires_at = zero_time;
  evaluation_token = [];
}

-- `default_registry` is the package variable that a nil registry stands for, and that may be nil
-- itself. The error that the
-- function returns is always nil.
unfoldable pub evaluate_local_eligibility :
    Option Registry → Context → Option Registry → Input → EvaluationResult
unfolding inactive_result active_result
evaluate_local_eligibility default_registry ctx registry input =
    if not (input.benefit.status == Status.active)
    then inactive_result
    else active_result (
        evaluate_all (elim registry [ none ↦ default_registry | some r ↦ some r ]) ctx input
          input.benefit.constraints)
