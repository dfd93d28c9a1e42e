-- ===== src/Tests/Constraint.antt =====
-- The constraint registry and the built-in evaluators on concrete constraints.
use go_benefit.Prelude.{
  ◌≡◌, refl, ◌↔◌, ◌≢◌, true, false, not, [], ◌∷◌, arith, Option, some, none, List, All, has,
  is_some, is_nil, if◌then◌else◌, ◌==◌, IsDistinct, map,
}
use go_benefit.Int64.{pos, ℤ, int_eq}
use go_benefit.Text.{Text, bytes, text_eq}
use go_benefit.Errors.{ok, Result}
use go_benefit.Core.Status.{Status, Validity, validate_validity, is_zero_validity}
use go_benefit.Core.Constraint.{
  Constraint, ConstraintType, ConstraintDecision, ConstraintDecisionCode, ConstraintReport,
  ConstraintReportStatus, constraint_satisfied, constraint_unsatisfied, decision, bare_report,
}
use go_benefit.Constraint.Types.{Context, Input, Evaluator, EvaluatorValue}
use go_benefit.Constraint.Registry.{Registry, new_registry, register, evaluate, evaluate_all}
use go_benefit.Constraint.Registry.Decisions.{IsReportable, evaluate-IsReportable}
use go_benefit.Constraint.Registry.Report.{summary, decisions, evaluate_all-eq-summary}
use go_benefit.Constraint.Builtin.Time.{Zones, WeekdayParams, weekday_decision, range_decision}
use go_benefit.Constraint.Builtin.Time.Laws.{range_of, active_facts, range_decision-resolve_status}
use go_benefit.Constraint.Builtin.Amount.{
  AmountParams, AmountExtractor, AmountConstraintEvaluator, new_minimum_amount_evaluator,
  evaluate_amount,
}
use go_benefit.Constraint.Builtin.Amount.Satisfied.{IsSatisfied, evaluate_amount-satisfied_iff}
use go_benefit.Constraint.Builtin.Scope.{
  ScopeMatch, ScopeParams, ScopeConstraintEvaluator, new_scope_evaluator, evaluate_scope,
}
use go_benefit.Constraint.Builtin.Scope.Satisfied.{IsInScope, evaluate_scope-satisfied_iff}
use go_benefit.Constraint.Builtin.Usage.{evaluate_redemption_limit}
use go_benefit.Constraint.Builtin.Usage.Laws.{IsBelow, evaluate_redemption_limit-satisfied_iff}
use go_benefit.Constraint.Builtin.Register.{Platform}
use go_benefit.Evaluation.Status.{resolve_status}
use go_benefit.Tests.Core.{noon, unknown_driver}

abbrev pub calm : Context
calm = record { ctx_err = none }

abbrev pub at_noon : Input
at_noon = record { benefit = unknown_driver; input = none; now = noon }

abbrev pub always_type : ConstraintType
always_type = bytes "shop.always"

abbrev pub always : Evaluator
always = λ ctx c input. ok constraint_satisfied

abbrev pub registry : Registry
registry = (always_type, always) ∷ []

abbrev pub of_type : ConstraintType → Constraint
of_type typ = record { constraint_type = typ; params = bytes "{}"; remark = [] }

abbrev pub lost_type : ConstraintType
lost_type = bytes "shop.lost"

abbrev both : List Constraint
both = of_type always_type ∷ of_type lost_type ∷ []

abbrev zones : Zones
zones = record { load_location = λ name. ok name; weekday = λ at. 1 }

abbrev pub platform : Platform
platform = record {
  clock = noon;
  zones = zones;
  decode_time_range = λ t. ok (record { starts_at = noon; expires_at = noon });
  decode_weekday = λ t. ok (record { weekdays = pos 1 ∷ []; timezone = [] });
  decode_limit = λ t. ok (record { max_count = pos 1 });
}

abbrev window : Validity
window = record { starts_at = noon; expires_at = record { instant = pos 2000; location = [] } }

abbrev mondays : WeekdayParams
mondays = record { weekdays = pos 1 ∷ pos 3 ∷ []; timezone = bytes "Asia/Shanghai" }

abbrev one_dollar : Text → Result AmountParams
one_dollar t = ok (record { amount = pos 100; currency = bytes "USD" })

abbrev paid : AmountExtractor
paid input = ok (record { amount = pos 250; currency = bytes "usd" }, true)

abbrev decode_mondays : Text → Result WeekdayParams
decode_mondays t = ok mondays

abbrev decode_scope : Text → Result ScopeParams
decode_scope t = ok (record {
  values = bytes " shop-1 " ∷ bytes "shop-2" ∷ bytes " " ∷ [];
  match = ScopeMatch.empty;
})

-- An operation in two shops, one of which is in scope.
abbrev shops : ScopeConstraintEvaluator
shops = new_scope_evaluator (some (λ input. ok (bytes "shop-3" ∷ bytes "shop-1" ∷ [])))

lost_run :
    (evaluate (some registry) calm (of_type lost_type) at_noon).code
    ≡ ConstraintDecisionCode.unrecognized
unfolding evaluate go_benefit.Dict.lookup go_benefit.Prelude.list_beq
    go_benefit.Core.Constraint.ConstraintDecisionCode-discrete
lost_run = refl

pub register_run :
    register (some new_registry) always_type (EvaluatorValue.object always) ≡ ok registry
unfolding register go_benefit.Core.Constraint.validate_constraint_type
    go_benefit.Core.Identifier.validate_namespaced_value go_benefit.Dict.lookup
    go_benefit.Dict.insert
register_run = refl

window_run : validate_validity window ≡ ok tt
unfolding validate_validity go_benefit.Int64.beq_ℤ
window_run = refl

window_end_run : is_zero_validity window ≡ false
unfolding go_benefit.Int64.beq_ℤ
window_end_run = refl

monday_run : (weekday_decision zones mondays noon).code ≡ ConstraintDecisionCode.satisfied
unfolding weekday_decision go_benefit.Int64.beq_ℤ
monday_run = refl

evaluate-IsReportable_example :
    IsReportable lost_type (evaluate (some registry) calm (of_type lost_type) at_noon)
evaluate-IsReportable_example =
    evaluate-IsReportable (some registry) calm (of_type lost_type) at_noon

evaluate_all-eq-summary_example :
    evaluate_all (some registry) calm at_noon both
    ≡ summary (decisions (some registry) calm at_noon both)
evaluate_all-eq-summary_example = evaluate_all-eq-summary (some registry) calm at_noon both

range_decision-resolve_status_example :
    ((range_decision (range_of window) noon).code ≡ ConstraintDecisionCode.satisfied)
    ↔ (resolve_status noon (active_facts window) ≡ Status.active)
range_decision-resolve_status_example =
    range_decision-resolve_status window noon window_run window_end_run

abbrev paid_enough : AmountConstraintEvaluator
paid_enough = new_minimum_amount_evaluator (some paid)

evaluate_amount-satisfied_iff_example :
    (evaluate_amount one_dollar paid_enough calm (of_type always_type) at_noon
      ≡ ok constraint_satisfied)
    ↔ IsSatisfied one_dollar paid_enough calm (of_type always_type) at_noon
evaluate_amount-satisfied_iff_example =
    evaluate_amount-satisfied_iff one_dollar paid_enough calm (of_type always_type) at_noon

in_scope_run :
    (d : ConstraintDecision) × (evaluate_scope decode_scope shops calm (of_type always_type) at_noon
      ≡ ok d)
    × (d.code ≡ ConstraintDecisionCode.satisfied)
unfolding evaluate_scope go_benefit.Core.Constraint.unmarshal_params
    go_benefit.Text.Space.trim_space go_benefit.Prelude.list_beq
in_scope_run = (constraint_satisfied, refl, refl)

evaluate_scope-satisfied_iff_example :
    ((d : ConstraintDecision) × (evaluate_scope decode_scope shops calm
          (of_type always_type)
          at_noon
        ≡ ok d)
      × (d.code ≡ ConstraintDecisionCode.satisfied))
    ↔ IsInScope decode_scope shops calm (of_type always_type) at_noon
evaluate_scope-satisfied_iff_example =
    evaluate_scope-satisfied_iff decode_scope shops calm (of_type always_type) at_noon

evaluate_redemption_limit-satisfied_iff_example :
    ((d : ConstraintDecision) × (evaluate_redemption_limit platform.decode_limit calm
          (of_type always_type)
          at_noon
        ≡ ok d)
      × (d.code ≡ ConstraintDecisionCode.satisfied))
    ↔ IsBelow platform.decode_limit calm (of_type always_type) at_noon
evaluate_redemption_limit-satisfied_iff_example =
    evaluate_redemption_limit-satisfied_iff platform.decode_limit calm (of_type always_type) at_noon
