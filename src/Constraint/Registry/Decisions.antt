-- ===== src/Constraint/Registry/Decisions.antt =====
-- What Registry.Evaluate answers for one constraint.
use go_benefit.Prelude.{◌≡◌, ◌≢◌, ◌↔◌, inl, inr, false, Option, some, none, arith, Option-cases}
use go_benefit.Errors.{ok}
use go_benefit.Errors.Laws.{Result-cases}
use go_benefit.Core.Diagnostic.{no_diagnostic, is_empty}
use go_benefit.Core.Constraint.{
  Constraint, ConstraintType, ConstraintDecision, ConstraintDecisionCode, decision_code_eq,
  constraint_unsatisfied,
}
use go_benefit.Constraint.Types.{Context, Input, Evaluator}
use go_benefit.Constraint.Registry.{Registry, get, settle, evaluate}

-- A code that is none of the documented ones.
abbrev pub IsForeign : ConstraintDecisionCode → Type 0
IsForeign (ConstraintDecisionCode.other t) = Unit
IsForeign _ = ⊥

-- A decision under the type of its constraint, with one of the five documented codes, and with a
-- reason exactly where it is negative.
pub record IsReportable (typ : ConstraintType) (d : ConstraintDecision) : Type 0 where
  pub same_type : d.constraint_type ≡ typ
  pub named : d.code ≢ ConstraintDecisionCode.empty
  pub documented : ¬ IsForeign d.code
  pub positive : d.code ≡ ConstraintDecisionCode.satisfied → d.diagnostic ≡ no_diagnostic
  pub negative : d.code ≢ ConstraintDecisionCode.satisfied → is_empty d.diagnostic.reason ≡ false

settle-IsReportable :
    (typ : ConstraintType) (d : ConstraintDecision) → IsReportable typ (settle typ d)
unfolding settle
settle-IsReportable typ d = ground arith

settle-ne-unrecognized :
    (typ : ConstraintType) (d : ConstraintDecision)
    → (settle typ d).code ≢ ConstraintDecisionCode.unrecognized
unfolding settle
settle-ne-unrecognized typ d = ground arith

settle-satisfied_iff :
    (typ : ConstraintType) (d : ConstraintDecision)
    → ((settle typ d).code ≡ ConstraintDecisionCode.satisfied)
      ↔ (d.code ≡ ConstraintDecisionCode.satisfied)
unfolding settle
settle-satisfied_iff typ d = ground arith

module _ (r : Option Registry) (ctx : Context) (c : Constraint) (input : Input) where
  -- Whatever an evaluator returns, the decision of Evaluate has the type of its constraint, one of
  -- the five documented codes, no diagnostic if it is satisfied, and a reason if it is not.
  pub evaluate-IsReportable : IsReportable c.constraint_type (evaluate r ctx c input)
  unfolding evaluate constraint_unsatisfied
  evaluate-IsReportable = elim (Option-cases (get r c.constraint_type)) [
    | inl missing ↦ rw (missing, evaluate) (ground arith)
    | inr (f, found) ↦ elim (Result-cases (f ctx c input)) [
      | inl (e, failed) ↦ ground arith
      | inr (d, decided) ↦ ground (arith, settle-IsReportable c.constraint_type d)
    ]
  ]

  -- The code is unrecognized exactly where no evaluator is registered for the type: an evaluator
  -- cannot claim that code.
  pub evaluate-unrecognized_iff :
      ((evaluate r ctx c input).code ≡ ConstraintDecisionCode.unrecognized)
      ↔ (get r c.constraint_type ≡ none)
  unfolding evaluate constraint_unsatisfied
  evaluate-unrecognized_iff = elim (Option-cases (get r c.constraint_type)) [
    | inl missing ↦ ground arith
    | inr (f, found) ↦ elim (Result-cases (f ctx c input)) [
      | inl (e, failed) ↦ ground arith
      | inr (d, decided) ↦ ground (arith, settle-ne-unrecognized c.constraint_type d)
    ]
  ]

  -- The decision is satisfied exactly where a registered evaluator returned that code and no error.
  pub evaluate-satisfied_iff :
      ((evaluate r ctx c input).code ≡ ConstraintDecisionCode.satisfied) ↔ (
        (f : Evaluator) × (d : ConstraintDecision) × (get r c.constraint_type ≡ some f)
        × (f ctx c input ≡ ok d)
        × (d.code ≡ ConstraintDecisionCode.satisfied))
  unfolding evaluate constraint_unsatisfied
  evaluate-satisfied_iff = elim (Option-cases (get r c.constraint_type)) [
    | inl missing ↦
        (λ h. absurd (ground arith), λ (g, d, found, returned, positive). absurd (ground arith))
    | inr (f, found) ↦ elim (Result-cases (f ctx c input)) [
      | inl (e, failed) ↦
          (λ h. absurd (ground arith), λ (g, d, found', returned, positive). absurd (ground arith))
      | inr (d, decided) ↦ (
        λ h. (f, d, found, decided, ground (arith, settle-satisfied_iff c.constraint_type d)),
        λ (g, d', found', returned, positive).
            ground (arith, settle-satisfied_iff c.constraint_type d),
      )
    ]
  ]
