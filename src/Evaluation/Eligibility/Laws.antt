-- ===== src/Evaluation/Eligibility/Laws.antt =====
-- The result of EvaluateLocalEligibility.
use go_benefit.Prelude.{
  ◌≡◌, refl, ◌≢◌, ◌↔◌, ◌⊎◌, inl, inr, true, Option, some, none, List, All, arith, Bool-cases, ◌==◌,
}
use go_benefit.Errors.{ok}
use go_benefit.Core.Status.{Status, status_eq}
use go_benefit.Core.Outcome.{validate_outcome}
use go_benefit.Core.Constraint.{Constraint, ConstraintDecisionCode, is_evaluated}
use go_benefit.Core.Results.{EvaluationResult, validate_evaluation_result}
use go_benefit.Constraint.Types.{Context, Input}
use go_benefit.Constraint.Registry.{Registry, evaluate, evaluate_all}
use go_benefit.Constraint.Registry.Report.{evaluate_all-satisfied_iff, evaluate_all-status}
use go_benefit.Evaluation.Eligibility.{active_result, inactive_result, evaluate_local_eligibility}

-- The registry that is used: the default one, which may be nil too, stands in for nil.
abbrev pub effective : Option Registry → Option Registry → Option Registry
effective default_registry none = default_registry
effective default_registry (some r) = some r

module _ (default_registry : Option Registry) (ctx : Context) (registry : Option Registry)
    (input : Input) where
  abbrev pub local : EvaluationResult
  local = evaluate_local_eligibility default_registry ctx registry input

  local_active :
      input.benefit.status ≡ Status.active
      → local
        ≡ active_result
            (evaluate_all (effective default_registry registry) ctx input input.benefit.constraints)
  unfolding evaluate_local_eligibility
  local_active h = ground arith

  local_inactive : input.benefit.status ≢ Status.active → local ≡ inactive_result
  unfolding evaluate_local_eligibility
  local_inactive h = ground arith

  active_result-valid :
      (r : Option Registry) (cs : List Constraint)
      → validate_evaluation_result (active_result (evaluate_all r ctx input cs)) ≡ ok tt
  unfolding active_result validate_evaluation_result validate_outcome
  active_result-valid r cs = ground (arith, evaluate_all-status r ctx input cs)

  inactive_result-valid : validate_evaluation_result inactive_result ≡ ok tt
  unfolding inactive_result validate_evaluation_result
  inactive_result-valid = refl

  status_cases : (input.benefit.status ≡ Status.active) ⊎ (input.benefit.status ≢ Status.active)
  status_cases = elim (Bool-cases (input.benefit.status == Status.active)) [
    | inl same ↦ inl (ground arith)
    | inr other ↦ inr (ground arith)
  ]

  -- The result of EvaluateLocalEligibility passes Validate, whatever the registry and its
  -- evaluators do.
  pub evaluate_local_eligibility-valid : validate_evaluation_result local ≡ ok tt
  evaluate_local_eligibility-valid = elim status_cases [
    | inl active ↦ rw (local_active active) (active_result-valid _ _)
    | inr inactive ↦ rw (local_inactive inactive) inactive_result-valid
  ]

  -- A benefit is eligible exactly when it is active and the registry, or the default one for nil,
  -- satisfies each of its constraints.
  pub evaluate_local_eligibility-eligible_iff : (local.eligible ≡ true) ↔ (
      (input.benefit.status ≡ Status.active)
      × All
          (λ c.
            (evaluate (effective default_registry registry) ctx c input).code
            ≡ ConstraintDecisionCode.satisfied)
          input.benefit.constraints)
  unfolding active_result inactive_result
  evaluate_local_eligibility-eligible_iff = elim status_cases [
    | inl active ↦ rw (local_active active) (
        ground (
          arith,
          evaluate_all-satisfied_iff (effective default_registry registry) ctx input
              input.benefit.constraints,
        ))
    | inr inactive ↦ rw (local_inactive inactive) (ground arith)
  ]

  -- Constraints are evaluated exactly for active benefits.
  pub evaluate_local_eligibility-evaluated_iff :
      (is_evaluated local.constraints ≡ true) ↔ (input.benefit.status ≡ Status.active)
  unfolding active_result inactive_result
  evaluate_local_eligibility-evaluated_iff = elim status_cases [
    | inl active ↦ rw (local_active active) (
        ground (
          arith,
          evaluate_all-status (effective default_registry registry) ctx input
              input.benefit.constraints,
        ))
    | inr inactive ↦ rw (local_inactive inactive) (ground arith)
  ]
