-- ===== src/Constraint/Registry/Report.antt =====
-- The report of EvaluateAll against a description with no loop.
use go_benefit.Prelude.{
  ◌+◌, ◌≡◌, refl, ◌↔◌, ◌⊎◌, Bool, true, not, Option, List, [], ◌∷◌, ◌++◌, map, all, select, count,
  All, arith, if◌then◌else◌, ◌∙◌,
}
use mathlib.Core.List.{append-nil, append_assoc}
use go_benefit.Core.Constraint.{
  Constraint, ConstraintDecision, ConstraintDecisionCode, ConstraintReport, ConstraintReportStatus,
  bare_report, is_satisfied, is_recognized, decision_code_eq, report_status_eq,
}
use go_benefit.Constraint.Types.{Context, Input}
use go_benefit.Constraint.Registry.{Registry, evaluate, tally, evaluate_from, evaluate_all}

abbrev is_violation : ConstraintDecision → Bool
is_violation d = not (is_satisfied d)

abbrev pub is_unknown : ConstraintDecision → Bool
is_unknown d = not (is_recognized d)

-- A report extended by decisions, all at once.
abbrev extended : ConstraintReport → List ConstraintDecision → ConstraintReport
extended report ds = record {
  status = if all is_satisfied ds then report.status else ConstraintReportStatus.unsatisfied;
  violations = report.violations ++ select is_violation ds;
  unrecognized = report.unrecognized + count is_unknown ds;
}

abbrev pub summary : List ConstraintDecision → ConstraintReport
summary ds = record {
  status =
      if all is_satisfied ds
      then ConstraintReportStatus.satisfied
      else ConstraintReportStatus.unsatisfied;
  violations = select is_violation ds;
  unrecognized = count is_unknown ds;
}

module _ (r : Option Registry) (ctx : Context) (input : Input) where
  abbrev pub decisions : List Constraint → List ConstraintDecision
  decisions = map (λ c. evaluate r ctx c input)

  extended-nil : (report : ConstraintReport) → extended report [] ≡ report
  extended-nil report = ground (arith, append-nil report.violations)

  extended-tally :
      (report : ConstraintReport) (d : ConstraintDecision) (ds : List ConstraintDecision)
      → extended (tally report d) ds ≡ extended report (d ∷ ds)
  unfolding tally
  extended-tally report d ds =
      ground (arith, append_assoc report.violations (d ∷ []) (select is_violation ds))

  evaluate_from_lem :
      (report : ConstraintReport) (cs : List Constraint)
      → evaluate_from r ctx input report cs ≡ extended report (decisions cs)
  unfolding evaluate_from
  evaluate_from_lem report [] = cc (extended-nil report)
  evaluate_from_lem report (c ∷ cs) =
      evaluate_from_lem (tally report (evaluate r ctx c input)) cs
      ∙ extended-tally report (evaluate r ctx c input) (decisions cs)

  -- EvaluateAll evaluates every constraint. Its report is satisfied where every decision is, lists
  -- the other decisions in the order of their constraints, and counts the unrecognized ones.
  pub evaluate_all-eq-summary :
      (cs : List Constraint) → evaluate_all r ctx input cs ≡ summary (decisions cs)
  unfolding evaluate_all
  evaluate_all-eq-summary cs =
      ground (arith, evaluate_from_lem (bare_report ConstraintReportStatus.satisfied) cs)

  all_satisfied_iff :
      (cs : List Constraint)
      → (all is_satisfied (decisions cs) ≡ true)
        ↔ All (λ c. (evaluate r ctx c input).code ≡ ConstraintDecisionCode.satisfied) cs
  all_satisfied_iff [] = (λ h. tt, λ h. refl)
  all_satisfied_iff (c ∷ cs) = ground (arith, all_satisfied_iff cs)

  -- A report is satisfied exactly where each constraint's decision is.
  pub evaluate_all-satisfied_iff :
      (cs : List Constraint)
      → ((evaluate_all r ctx input cs).status ≡ ConstraintReportStatus.satisfied)
        ↔ All (λ c. (evaluate r ctx c input).code ≡ ConstraintDecisionCode.satisfied) cs
  evaluate_all-satisfied_iff cs =
      rw (evaluate_all-eq-summary cs) (ground (arith, all_satisfied_iff cs))

  pub evaluate_all-status :
      (cs : List Constraint)
      → ((evaluate_all r ctx input cs).status ≡ ConstraintReportStatus.satisfied)
        ⊎ ((evaluate_all r ctx input cs).status ≡ ConstraintReportStatus.unsatisfied)
  evaluate_all-status cs = rw (evaluate_all-eq-summary cs) (ground arith)
