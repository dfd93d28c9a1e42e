-- ===== src/Constraint/Builtin/Usage/Laws.antt =====
-- When a redemption limit is satisfied.
use go_benefit.Prelude.{◌≡◌, ◌↔◌, inl, inr, false, none, is_nil, arith, Option-cases}
use go_benefit.Int64.{pos, ◌≤ℤ◌, ◌<ℤ◌}
use go_benefit.Text.{Text}
use go_benefit.Errors.{Result, ok}
use go_benefit.Errors.Laws.{Result-cases}
use go_benefit.Core.Constraint.{
  Constraint, ConstraintDecision, ConstraintDecisionCode, unmarshal_params,
}
use go_benefit.Constraint.Types.{Context, Input}
use go_benefit.Constraint.Builtin.Usage.{
  RedemptionLimitParams, limit_decision, evaluate_redemption_limit,
}

-- The call is live, the parameters decode to a positive limit, and the benefit has been redeemed fewer
-- times than that.
pub record IsBelow (decode : Text → Result RedemptionLimitParams) (ctx : Context) (c : Constraint)
    (input : Input) : Type 0 where
  pub live : ctx.ctx_err ≡ none
  pub params : RedemptionLimitParams
  pub given : is_nil c.params ≡ false
  pub decoded : decode c.params ≡ ok params
  pub positive : pos 0 <ℤ params.max_count
  pub nonneg : pos 0 ≤ℤ input.benefit.usage.redeemed_count
  pub below : input.benefit.usage.redeemed_count <ℤ params.max_count

limit_decision_iff :
    (p : RedemptionLimitParams) (input : Input)
    → ((limit_decision p input).code ≡ ConstraintDecisionCode.satisfied) ↔ (
        (pos 0 <ℤ p.max_count)
        × (pos 0 ≤ℤ input.benefit.usage.redeemed_count)
        × (input.benefit.usage.redeemed_count <ℤ p.max_count))
unfolding limit_decision
limit_decision_iff p input = ground arith

limited :
    (decode : Text → Result RedemptionLimitParams) (ctx : Context) (c : Constraint) (input : Input)
    (p : RedemptionLimitParams)
    → ctx.ctx_err ≡ none
    → is_nil c.params ≡ false
    → decode c.params ≡ ok p
    → evaluate_redemption_limit decode ctx c input ≡ ok (limit_decision p input)
unfolding evaluate_redemption_limit unmarshal_params
limited decode ctx c input p live given decoded = ground arith

-- The evaluator of redemption limits returns a satisfied decision exactly where the context is live, the
-- parameters decode to a limit above zero, and the count of redemptions is not negative and below it.
pub evaluate_redemption_limit-satisfied_iff :
    (decode : Text → Result RedemptionLimitParams) (ctx : Context) (c : Constraint) (input : Input)
    → ((d : ConstraintDecision) × (evaluate_redemption_limit decode ctx c input ≡ ok d)
        × (d.code ≡ ConstraintDecisionCode.satisfied))
      ↔ IsBelow decode ctx c input
unfolding evaluate_redemption_limit limit_decision unmarshal_params
evaluate_redemption_limit-satisfied_iff decode ctx c input = elim (Option-cases ctx.ctx_err) [
  | inr (e, done) ↦ (λ (d, h, k). absurd (ground arith), λ h. absurd (ground (arith, h.live)))
  | inl live ↦ elim (Result-cases (decode c.params)) [
    | inl (e, failed) ↦
        (λ (d, h, k). absurd (ground arith), λ h. absurd (ground (arith, h.decoded)))
    | inr (p, decoded) ↦ (
      λ (d, h, k).
          let given : is_nil c.params ≡ false = ground arith in
          let same : limit_decision p input ≡ d =
            ground (arith, limited decode ctx c input p live given decoded) in
          let (positive, nonneg, below) = (limit_decision_iff p input).0 (rw same k) in
          record {
            live = live;
            params = p;
            given = given;
            decoded = decoded;
            positive = positive;
            nonneg = nonneg;
            below = below;
          },
      λ h. (
        limit_decision h.params input,
        limited decode ctx c input h.params h.live h.given h.decoded,
        (limit_decision_iff h.params input).1 (h.positive, h.nonneg, h.below),
      ),
    )
  ]
]
