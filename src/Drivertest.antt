-- ===== src/Drivertest.antt =====
-- The checks of drivertest/drivertest.go on results, as verdicts: t.Fatal ends a test.
pub mod Laws
pub mod Test
pub mod Run
use go_benefit.Prelude.{
  Bool, not, ◌&&◌, ◌||◌, Option, none, some, String, is_nil, if◌then◌else◌, ◌==◌,
}
use go_benefit.Text.{text_eq}
use go_benefit.Errors.{Result, Check, ok, err}
use go_benefit.Core.Money.{Money}
use go_benefit.Core.Outcome.{BenefitOutcome}
use go_benefit.Core.Info.{
  RedeemRequest, ReverseRequest, validate_redeem_request, validate_reverse_request,
}
use go_benefit.Core.Results.{
  EvaluationResult, validate_evaluation_result, Redemption, RedeemResult, validate_redeem_result,
  Reversal, ReverseResult, validate_reverse_result,
}
use go_benefit.Discount.Resolve.{resolve}

pub data Verdict : Type 0 where
  passed : Verdict
  fatal : String → Verdict

abbrev pub and_then : Verdict → Verdict → Verdict
and_then passed v = v
and_then (fatal msg) v = fatal msg

abbrev pub fatal_if : Bool → String → Verdict
fatal_if bad msg = if bad then fatal msg else passed

-- `if err := …; err != nil { t.Fatalf(msg, err) }`
abbrev pub require {ℓ} : {A : Type ℓ} → Result A → String → Verdict
require (ok a) msg = passed
require (err e) msg = fatal msg

-- The original is `none` where it is nil.
unfoldable pub check_outcome : BenefitOutcome → Option Money → Verdict
check_outcome outcome none = passed
check_outcome outcome (some original) =
    require (resolve original outcome) "monetary outcome does not match transaction: %v"

unfoldable pub check_evaluation : EvaluationResult → Option Money → Verdict
unfolding check_outcome
check_evaluation r original =
    and_then (require (validate_evaluation_result r) "invalid evaluation result: %v")
      (if r.eligible then check_outcome r.outcome original else passed)

-- The body of `if result.Redemption != nil`.
unfoldable pub check_redemption : RedeemRequest → Option Money → Option Redemption → Verdict
unfolding check_outcome
check_redemption req original none = passed
check_redemption req original (some s) =
    and_then
      (fatal_if (not (s.redemption_id == req.redemption_id))
        "redeem result did not preserve caller RedemptionId")
      (check_outcome s.outcome original)

unfoldable pub check_redeem : RedeemRequest → RedeemResult → Option Money → Verdict
unfolding check_redemption
check_redeem req r original =
    and_then (require (validate_redeem_request req) "invalid redeem test request: %v") (
      and_then (require (validate_redeem_result r) "invalid redeem result: %v")
        (check_redemption req original r.redemption))

-- The body of `if result.Reversal != nil`.
unfoldable pub check_reversal : ReverseRequest → Option Reversal → Verdict
check_reversal req none = passed
check_reversal req (some s) =
    and_then
      (fatal_if
        (not (s.redemption_id == req.redemption_id) || not (s.reversal_id == req.reversal_id))
        "reverse result did not preserve caller operation IDs")
      (fatal_if
        (not (is_nil req.provider_redemption_id)
          && not (is_nil s.provider_redemption_id)
          && not (s.provider_redemption_id == req.provider_redemption_id))
        "reverse result references a different provider redemption")

unfoldable pub check_reverse : ReverseRequest → ReverseResult → Verdict
unfolding check_reversal
check_reverse req r =
    and_then (require (validate_reverse_request req) "invalid reverse test request: %v") (
      and_then (require (validate_reverse_result r) "invalid reverse result: %v")
        (check_reversal req r.reversal))
