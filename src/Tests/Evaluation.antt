-- ===== src/Tests/Evaluation.antt =====
-- Status resolution, operations and eligibility on concrete benefits.
use go_benefit.Prelude.{
  ◌≡◌, refl, ◌↔◌, ◌≢◌, true, false, [], ◌∷◌, arith, Option, some, none, List, All,
}
use go_benefit.Int64.{pos}
use go_benefit.Text.{bytes}
use go_benefit.Time.{Time}
use go_benefit.Errors.{ok}
use go_benefit.Core.Status.{Status}
use go_benefit.Core.Diagnostic.{no_diagnostic}
use go_benefit.Core.Constraint.{
  Constraint, ConstraintDecisionCode, bare_report, ConstraintReportStatus,
}
use go_benefit.Core.Operation.{
  Operation, OperationMode, OperationCapability, OperationPolicies, OperationDecision,
  OperationDecisionStatus, validate_operation_decision,
}
use go_benefit.Core.Results.{validate_evaluation_result}
use go_benefit.Constraint.Registry.{Registry, evaluate}
use go_benefit.Evaluation.Status.{StatusFacts, resolve_status}
use go_benefit.Evaluation.Status.Laws.{Inside, resolve_status-active_iff}
use go_benefit.Evaluation.Operation.{evaluate_operation}
use go_benefit.Evaluation.Operation.Policies.{Permits}
use go_benefit.Evaluation.Operation.Decisions.{
  IsOffered, IsSatisfied, evaluate_operation-valid_iff, evaluate_operation-eligible_iff,
}
use go_benefit.Evaluation.Operation.Accepted.{IsAccepted, evaluate_operation-returns_iff}
use go_benefit.Evaluation.Eligibility.{evaluate_local_eligibility}
use go_benefit.Evaluation.Eligibility.Laws.{
  effective, evaluate_local_eligibility-valid, evaluate_local_eligibility-eligible_iff,
}
use go_benefit.Tests.Core.{noon, reverse_capability, no_partial}
use go_benefit.Tests.Constraint.{calm, at_noon, registry, of_type, always_type}

abbrev later : Time
later = record { instant = pos 3000; location = bytes "UTC" }

abbrev over : StatusFacts
over = record {
  usage_exhausted = false;
  provider_status = Status.active;
  validity = record { starts_at = record { instant = pos 0; location = [] }; expires_at = noon };
}

abbrev conditional : OperationPolicies
conditional =
    record {
      operation = Operation.reverse;
      match_modes = [];
      constraints = of_type always_type ∷ [];
      remark = [];
      disabled = false;
    }
    ∷ no_partial

abbrev reversible : OperationDecision
reversible = record {
  operation = Operation.reverse;
  mode = OperationMode.full;
  status = OperationDecisionStatus.eligible;
  constraints = bare_report ConstraintReportStatus.satisfied;
  diagnostic = no_diagnostic;
}

reversible_run :
    evaluate_operation calm
      (some registry)
      reverse_capability
      conditional
      Operation.reverse
      OperationMode.full
      at_noon
    ≡ ok reversible
unfolding evaluate_operation go_benefit.Core.Operation.validate_capabilities
    go_benefit.Core.Operation.Operation-discrete go_benefit.Core.Operation.OperationMode-discrete
    go_benefit.Core.Operation.validate_policies go_benefit.Core.Operation.get_capability
    go_benefit.Core.Operation.supports_mode
    go_benefit.Core.Constraint.ConstraintReportStatus-discrete
    go_benefit.Constraint.Registry.evaluate_all
    go_benefit.Core.Constraint.ConstraintDecisionCode-discrete go_benefit.Dict.lookup
    go_benefit.Prelude.list_beq go_benefit.Core.Constraint.constraint_satisfied
reversible_run = refl

over_run : resolve_status noon over ≡ Status.expired
unfolding resolve_status go_benefit.Int64.beq_ℤ
over_run = refl

resolve_status-active_iff_example : (resolve_status noon over ≡ Status.active) ↔ (
    (over.provider_status ≡ Status.active)
    × (over.usage_exhausted ≡ false)
    × Inside over.validity noon)
resolve_status-active_iff_example = resolve_status-active_iff noon over

evaluate_operation-valid_iff_example :
    (validate_operation_decision reversible ≡ ok tt) ↔ (Operation.reverse ≢ Operation.empty)
evaluate_operation-valid_iff_example =
    evaluate_operation-valid_iff calm registry reverse_capability conditional Operation.reverse
      OperationMode.full at_noon reversible reversible_run

evaluate_operation-eligible_iff_example : (reversible.status ≡ OperationDecisionStatus.eligible) ↔ (
    IsOffered calm registry reverse_capability conditional Operation.reverse OperationMode.full
      at_noon
    × All
        (Permits Operation.reverse OperationMode.full (
          IsSatisfied calm registry reverse_capability conditional Operation.reverse
            OperationMode.full at_noon))
        conditional)
evaluate_operation-eligible_iff_example =
    evaluate_operation-eligible_iff calm registry reverse_capability conditional Operation.reverse
      OperationMode.full at_noon reversible reversible_run

evaluate_operation-returns_iff_example :
    ((d : OperationDecision) × (evaluate_operation calm
          (some registry)
          reverse_capability
          conditional
          Operation.reverse
          OperationMode.full
          at_noon
        ≡ ok d))
    ↔ IsAccepted reverse_capability conditional Operation.reverse
evaluate_operation-returns_iff_example =
    evaluate_operation-returns_iff calm registry reverse_capability conditional Operation.reverse
      OperationMode.full at_noon

evaluate_local_eligibility-valid_example :
    validate_evaluation_result (evaluate_local_eligibility (some registry) calm none at_noon)
    ≡ ok tt
evaluate_local_eligibility-valid_example =
    evaluate_local_eligibility-valid (some registry) calm none at_noon

evaluate_local_eligibility-eligible_iff_example :
    ((evaluate_local_eligibility (some registry) calm none at_noon).eligible ≡ true) ↔ (
      (at_noon.benefit.status ≡ Status.active)
      × All
          (λ c.
            (evaluate (effective (some registry) none) calm c at_noon).code
            ≡ ConstraintDecisionCode.satisfied)
          at_noon.benefit.constraints)
evaluate_local_eligibility-eligible_iff_example =
    evaluate_local_eligibility-eligible_iff (some registry) calm none at_noon
