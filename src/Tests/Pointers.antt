-- ===== src/Tests/Pointers.antt =====
-- A driver that returns the same result for two requests.
use go_benefit.Prelude.{◌≡◌, refl, none, some, [], arith}
use go_benefit.Text.{bytes}
use go_benefit.Memory.{Memory}
use go_benefit.Errors.{ok}
use go_benefit.Core.Status.{ResultStatus}
use go_benefit.Core.Info.{RedeemRequest}
use go_benefit.Core.Results.{Redemption, validate_redeem_result}
use go_benefit.Core.Correlation.{correlate_redeem}
use go_benefit.Core.Correlation.Pointers.{
  RedeemResultRef, view_redeem, correlate_redeem_ref, read_redeem, refer_redemption, overwrite,
  correlate_redeem_ref-again,
}
use go_benefit.Tests.Core.{redeem_request, redemption_under, redeemed_under}

abbrev other_request : RedeemRequest
other_request = record redeem_request { redemption_id = bytes "r2" }

-- The record that the driver keeps, with no caller identifier.
abbrev kept : Memory Redemption
kept = record { next = 1; cell = λ a. redemption_under [] }

abbrev returned : RedeemResultRef
returned = record { status = ResultStatus.success; failure = none; redemption = some 0 }

abbrev correlated : RedeemResultRef × Memory Redemption
correlated = refer_redemption redeem_request 0 returned kept

first_run : correlate_redeem_ref redeem_request returned kept ≡ ok correlated
unfolding correlate_redeem_ref go_benefit.Core.Info.validate_redeem_request validate_redeem_result
    go_benefit.Core.Outcome.validate_outcome
first_run = refl

filled_run : view_redeem correlated.1 correlated.0 ≡ redeemed_under (bytes "r1")
filled_run = refl

correlate_redeem_ref-again_example :
    read_redeem (
      correlate_redeem_ref other_request returned
        (overwrite correlated.0.redemption (redemption_under (bytes "r9")) correlated.1))
    ≡ correlate_redeem other_request (view_redeem kept returned)
correlate_redeem_ref-again_example =
    correlate_redeem_ref-again redeem_request other_request returned kept correlated.0 correlated.1
      (omega arith) first_run (redemption_under (bytes "r9"))
