-- ===== src/Constraint/Builtin/Amount/Satisfied.antt =====
-- When the evaluator of a minimum or maximum amount is satisfied.
use go_benefit.Prelude.{◌≡◌, ◌∙◌, sym, ◌≢◌, ◌↔◌, inl, inr, some, none, Option-cases, arith}
use go_benefit.Text.{Text}
use go_benefit.Errors.{Result, ok}
use go_benefit.Core.Constraint.{Constraint, constraint_satisfied}
use go_benefit.Constraint.Types.{Context, Input}
use go_benefit.Constraint.Builtin.Amount.{
  AmountParams, AmountExtractor, AmountConstraintEvaluator, evaluate_with_extractor,
  evaluate_amount,
}
use go_benefit.Constraint.Builtin.Amount.Laws.{Satisfies, evaluate_with_extractor_iff}

module _ (decode : Text → Result AmountParams) (e : AmountConstraintEvaluator) (ctx : Context)
    (c : Constraint) (input : Input) where
  -- A live context, an extractor, and what they find.
  pub record IsSatisfied : Type 0 where
    pub live : ctx.ctx_err ≡ none
    pub extractor : AmountExtractor
    pub set : e.extract ≡ some extractor
    pub found : Satisfies decode extractor e.minimum c input

  evaluate_amount_lem :
      (extractor : AmountExtractor)
      → ctx.ctx_err ≡ none
      → e.extract ≡ some extractor
      → evaluate_amount decode e ctx c input
        ≡ evaluate_with_extractor decode extractor e.minimum c input
  unfolding evaluate_amount
  evaluate_amount_lem extractor live set = ground arith

  cancelled :
      (live : ctx.ctx_err ≢ none) → evaluate_amount decode e ctx c input ≢ ok constraint_satisfied
  unfolding evaluate_amount
  cancelled live h = elim (Option-cases ctx.ctx_err) [
    | inl calm ↦ live calm
    | inr (cause, ended) ↦ ground arith
  ]

  unset :
      ctx.ctx_err ≡ none
      → e.extract ≡ none
      → evaluate_amount decode e ctx c input ≢ ok constraint_satisfied
  unfolding evaluate_amount
  unset live missing h = ground arith

  satisfied_only : evaluate_amount decode e ctx c input ≡ ok constraint_satisfied → IsSatisfied
  satisfied_only h = elim (Option-cases ctx.ctx_err) [
    | inr (cause, ended) ↦ absurd (cancelled (λ live. ground arith) h)
    | inl live ↦ elim (Option-cases e.extract) [
      | inl missing ↦ absurd (unset live missing h)
      | inr (extractor, set) ↦ record {
        live = live;
        extractor = extractor;
        set = set;
        found =
            (evaluate_with_extractor_iff decode extractor e.minimum c input).0
              (sym (evaluate_amount_lem extractor live set) ∙ h);
      }
    ]
  ]

  -- The evaluator of a minimum or maximum amount satisfies a constraint exactly when the context is
  -- not cancelled, the evaluator has an extractor, the parameters decode to a well-formed bound, the
  -- extractor finds a well-formed amount, the bound has no currency or that of the amount up to case,
  -- and the amount is at least the minimum or at most the maximum.
  pub evaluate_amount-satisfied_iff :
      (evaluate_amount decode e ctx c input ≡ ok constraint_satisfied) ↔ IsSatisfied
  evaluate_amount-satisfied_iff = (
    satisfied_only,
    λ s.
        evaluate_amount_lem s.extractor s.live s.set
        ∙ (evaluate_with_extractor_iff decode s.extractor e.minimum c input).1 s.found,
  )
