-- ===== src/Constraint/Registry/Racing.antt =====
-- EvaluateAll while other goroutines register evaluators: it takes the lock for one Get at a time, so each
-- constraint may meet another registry.
use go_benefit.Prelude.{
  ◌≡◌, refl, ◌+◌, ◌≤◌, inl, inr, true, some, List, [], ◌∷◌, map, count, is_some, All, arith,
  Option-cases,
}
use go_benefit.Text.{text_eq}
use go_benefit.Errors.{ok}
use go_benefit.Core.Constraint.{
  Constraint, ConstraintType, ConstraintDecision, ConstraintReport, ConstraintReportStatus,
  bare_report, decision_code_eq,
}
use go_benefit.Constraint.Types.{Context, Input, Evaluator, EvaluatorValue}
use go_benefit.Constraint.Registry.{
  Registry, register, get, evaluate, tally, evaluate_from, evaluate_all,
}
use go_benefit.Constraint.Registry.State.{register-keeps}
use go_benefit.Constraint.Registry.Report.{is_unknown, decisions, evaluate_all-eq-summary}
use go_benefit.Constraint.Registry.Decisions.{evaluate-unrecognized_iff}

module _ (ctx : Context) (input : Input) where
  -- The loop of EvaluateAll from a report on, each constraint with the registry that its Get meets.
  unfoldable pub evaluate_racing :
      ConstraintReport → List (Registry × Constraint) → ConstraintReport
  unfolding tally evaluate
  evaluate_racing report [] = report
  evaluate_racing report ((r, c) ∷ rest) =
      evaluate_racing (tally report (evaluate (some r) ctx c input)) rest

  unfoldable pub evaluate_all_racing : List (Registry × Constraint) → ConstraintReport
  unfolding evaluate_racing
  evaluate_all_racing = evaluate_racing (bare_report ConstraintReportStatus.satisfied)

-- What the registry is at one time and at a later one, where evaluators are only registered.
pub data Grown (before : Registry) : Registry → Type 0 where
  unchanged : Grown before before
  registered :
      {r after : Registry} (typ : ConstraintType) (v : EvaluatorValue)
      → Grown before r
      → register (some r) typ v ≡ ok after
      → Grown before after

-- The registries are met in the order in which they grow, from the first to the last.
abbrev pub Meets : Registry → List (Registry × Constraint) → Registry → Type 0
Meets first [] last = Grown first last
Meets first ((r, c) ∷ rest) last = Grown first r × Meets r rest last

abbrev pub constraints_of : List (Registry × Constraint) → List Constraint
constraints_of = map (λ entry. entry.1)

Grown-get :
    {before after : Registry}
    → Grown before after
    → (k : ConstraintType) (f : Evaluator) → get (some before) k ≡ some f
    → get (some after) k ≡ some f
Grown-get unchanged k f found = found
Grown-get (registered typ v grown e) k f found =
    register-keeps (some _) typ k v f _ e (Grown-get grown k f found)

Grown-trans : {a b c : Registry} → Grown a b → Grown b c → Grown a c
Grown-trans g unchanged = g
Grown-trans g (registered typ v h e) = registered typ v (Grown-trans g h) e

Meets-Grown :
    (first : Registry) (seen : List (Registry × Constraint)) (last : Registry)
    → Meets first seen last
    → Grown first last
Meets-Grown first [] last h = h
Meets-Grown first ((r, c) ∷ rest) last (h, hs) = Grown-trans h (Meets-Grown r rest last hs)

module _ (ctx : Context) (input : Input) where
  -- Under a type that is registered, an evaluation does not depend on later registrations.
  evaluate-stays :
      (first r : Registry) (c : Constraint)
      → Grown first r
      → is_some (get (some first) c.constraint_type) ≡ true
      → evaluate (some r) ctx c input ≡ evaluate (some first) ctx c input
  unfolding evaluate
  evaluate-stays first r c grown known = elim (Option-cases (get (some first) c.constraint_type)) [
    | inl missing ↦ absurd (ground arith)
    | inr (f, found) ↦ ground (arith, Grown-get grown c.constraint_type f found)
  ]

  abbrev racing : List (Registry × Constraint) → List ConstraintDecision
  racing = map (λ entry. evaluate (some entry.0) ctx entry.1 input)

  racing-unrecognized :
      (report : ConstraintReport) (seen : List (Registry × Constraint))
      → (evaluate_racing ctx input report seen).unrecognized
        ≡ report.unrecognized + count is_unknown (racing seen)
  unfolding evaluate_racing tally
  racing-unrecognized report [] = ground arith
  racing-unrecognized report ((r, c) ∷ rest) =
      ground (arith, racing-unrecognized (tally report (evaluate (some r) ctx c input)) rest)

  -- A type that is unknown later was unknown before.
  unknown_before :
      {before after : Registry} (c : Constraint)
      → Grown before after
      → is_unknown (evaluate (some after) ctx c input) ≡ true
      → is_unknown (evaluate (some before) ctx c input) ≡ true
  unknown_before {before} {after} c grown h =
      elim (Option-cases (get (some before) c.constraint_type)) [
        | inl missing ↦ ground (arith, evaluate-unrecognized_iff (some before) ctx c input)
        | inr (f, found) ↦ absurd (
            ground (
              arith,
              Grown-get grown c.constraint_type f found,
              evaluate-unrecognized_iff (some after) ctx c input,
            ))
      ]

  -- Later registries leave no more types unknown.
  unknown_falls :
      {before after : Registry} (cs : List Constraint)
      → Grown before after
      → count is_unknown (decisions (some after) ctx input cs)
        ≤ count is_unknown (decisions (some before) ctx input cs)
  unknown_falls [] grown = omega arith
  unknown_falls (c ∷ cs) grown = ground (arith, unknown_before c grown, unknown_falls cs grown)

  unknown_count :
      (first : Registry) (seen : List (Registry × Constraint)) (last : Registry)
      → Meets first seen last
      → (count is_unknown (decisions (some last) ctx input (constraints_of seen))
          ≤ count is_unknown (racing seen))
        × (count is_unknown (racing seen)
            ≤ count is_unknown (decisions (some first) ctx input (constraints_of seen)))
  unknown_count first [] last h = (omega arith, omega arith)
  unknown_count first ((r, c) ∷ rest) last (h, hs) =
      let (fewest, most) = unknown_count r rest last hs in
      let falls = unknown_falls (constraints_of rest) h in
      let to_last = Meets-Grown r rest last hs in
      (ground (arith, unknown_before c to_last), ground (arith, unknown_before c h))

  -- While other goroutines only register evaluators, EvaluateAll counts no more constraints as unrecognized
  -- than it would with the registry that it starts with, and no fewer than with the one it ends with.
  pub evaluate_all_racing-bounds :
      (first : Registry) (seen : List (Registry × Constraint)) (last : Registry)
      → Meets first seen last
      → ((evaluate_all (some last) ctx input (constraints_of seen)).unrecognized
          ≤ (evaluate_all_racing ctx input seen).unrecognized)
        × ((evaluate_all_racing ctx input seen).unrecognized
            ≤ (evaluate_all (some first) ctx input (constraints_of seen)).unrecognized)
  unfolding evaluate_all_racing
  evaluate_all_racing-bounds first seen last h =
      let (fewest, most) = unknown_count first seen last h in
      let raced = racing-unrecognized (bare_report ConstraintReportStatus.satisfied) seen in
      rw
        (
          evaluate_all-eq-summary (some last) ctx input (constraints_of seen),
          evaluate_all-eq-summary (some first) ctx input (constraints_of seen),
        )
        (ground arith)

  racing_as_first :
      (report : ConstraintReport) (first r : Registry) (seen : List (Registry × Constraint))
      (last : Registry)
      → Grown first r
      → Meets r seen last
      → All (λ c. is_some (get (some first) c.constraint_type) ≡ true) (constraints_of seen)
      → evaluate_racing ctx input report seen
        ≡ evaluate_from (some first) ctx input report (constraints_of seen)
  unfolding evaluate_racing evaluate_from
  racing_as_first report first r [] last grown h known = refl
  racing_as_first report first r ((s, c) ∷ rest) last grown (h, hs) (known, knowns) =
      let to_s = Grown-trans grown h in
      ground (
        arith,
        evaluate-stays first s c to_s known,
        racing_as_first (tally report (evaluate (some s) ctx c input)) first s rest last to_s hs
            knowns,
      )

  -- While other goroutines only register evaluators, EvaluateAll on constraints whose types are all
  -- registered when it starts returns the report of the registry that it starts with.
  pub evaluate_all_racing-eq-evaluate_all :
      (first : Registry) (seen : List (Registry × Constraint)) (last : Registry)
      → Meets first seen last
      → All (λ c. is_some (get (some first) c.constraint_type) ≡ true) (constraints_of seen)
      → evaluate_all_racing ctx input seen
        ≡ evaluate_all (some first) ctx input (constraints_of seen)
  unfolding evaluate_all_racing evaluate_all
  evaluate_all_racing-eq-evaluate_all first seen last h known =
      racing_as_first (bare_report ConstraintReportStatus.satisfied) first first seen last unchanged
        h known
