-- ===== src/Drivertest/Laws.antt =====
-- The checks against correlation.
use go_benefit.Prelude.{◌≡◌, ◌↔◌, inl, inr, Option, some, arith, Option-cases, eq_iff}
use go_benefit.Text.{text_eq}
use go_benefit.Errors.{ok}
use go_benefit.Core.Money.{Money}
use go_benefit.Core.Info.{RedeemRequest, ReverseRequest}
use go_benefit.Core.Results.{Redemption, RedeemResult, Reversal, ReverseResult}
use go_benefit.Core.Correlation.{
  correlate_redeem, correlate_redemption, check_caller_id, correlate_reverse, correlate_reversal,
}
use go_benefit.Drivertest.{passed, check_outcome, check_redeem, check_reverse, check_reversal}

correlated_as_is :
    (req : RedeemRequest) (s : Redemption)
    → (correlate_redemption req s ≡ ok s) ↔ (s.redemption_id ≡ req.redemption_id)
unfolding correlate_redemption check_caller_id
correlated_as_is req s = ground (arith, eq_iff s.redemption_id req.redemption_id)

-- CheckRedeem passes exactly on the results that Correlate accepts and returns as they are, and whose
-- redemption, if there is one, has an outcome that passes the check against the original amount.
pub check_redeem-passed_iff :
    (req : RedeemRequest) (r : RedeemResult) (original : Option Money)
    → (check_redeem req r original ≡ passed) ↔ (
        (correlate_redeem req r ≡ ok r)
        × ((s : Redemption) → r.redemption ≡ some s → check_outcome s.outcome original ≡ passed))
unfolding check_redeem correlate_redeem
check_redeem-passed_iff req r original = elim (Option-cases r.redemption) [
  | inl missing ↦ (λ h. (ground arith, λ s e. absurd (ground arith)), λ (h, k). ground arith)
  | inr (s, present) ↦ (
    λ h. (
      ground (arith, correlated_as_is req s, eq_iff s.redemption_id req.redemption_id),
      λ t e. ground arith,
    ),
    λ (h, k).
        ground
          (arith, k s present, correlated_as_is req s, eq_iff s.redemption_id req.redemption_id),
  )
]

reversal_as_is :
    (req : ReverseRequest) (s : Reversal)
    → (correlate_reversal req s ≡ ok s) ↔ (check_reversal req (some s) ≡ passed)
unfolding correlate_reversal check_caller_id check_reversal
reversal_as_is req s = ground (
  arith,
  eq_iff s.redemption_id req.redemption_id,
  eq_iff s.reversal_id req.reversal_id,
  eq_iff req.provider_redemption_id s.provider_redemption_id,
  eq_iff s.provider_redemption_id req.provider_redemption_id,
)

-- CheckReverse passes exactly on the results that Correlate accepts and returns as they are.
pub check_reverse-passed_iff :
    (req : ReverseRequest) (r : ReverseResult)
    → (check_reverse req r ≡ passed) ↔ (correlate_reverse req r ≡ ok r)
unfolding check_reverse correlate_reverse
check_reverse-passed_iff req r = elim (Option-cases r.reversal) [
  | inl missing ↦ ground arith
  | inr (s, present) ↦ ground (arith, reversal_as_is req s)
]
