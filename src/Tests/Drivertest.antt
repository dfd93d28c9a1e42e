-- ===== src/Tests/Drivertest.antt =====
-- The checks of drivertest on a concrete redemption.
use go_benefit.Prelude.{◌≡◌, refl, ◌↔◌, none, some, []}
use go_benefit.Text.{bytes}
use go_benefit.Errors.{ok}
use go_benefit.Core.Results.{Redemption, RedeemResult}
use go_benefit.Core.Correlation.{correlate_redeem}
use go_benefit.Drivertest.{passed, fatal, check_redeem, check_outcome, check_reverse}
use go_benefit.Drivertest.Laws.{check_redeem-passed_iff}
use go_benefit.Tests.Core.{redeem_request, redeemed_under, reverse_request, reversed_under}

missing_id_check :
    check_redeem redeem_request (redeemed_under []) none
    ≡ fatal "redeem result did not preserve caller RedemptionId"
unfolding check_redeem go_benefit.Core.Info.validate_redeem_request
    go_benefit.Core.Results.validate_redeem_result go_benefit.Core.Outcome.validate_outcome
    go_benefit.Prelude.list_beq
missing_id_check = refl

check_redeem-passed_iff_example :
    (check_redeem redeem_request (redeemed_under (bytes "r1")) none ≡ passed) ↔ (
      (correlate_redeem redeem_request (redeemed_under (bytes "r1"))
        ≡ ok (redeemed_under (bytes "r1")))
      × ((s : Redemption)
          → (redeemed_under (bytes "r1")).redemption ≡ some s
          → check_outcome s.outcome none ≡ passed))
check_redeem-passed_iff_example =
    check_redeem-passed_iff redeem_request (redeemed_under (bytes "r1")) none

lost_id_check :
    check_reverse reverse_request (reversed_under [])
    ≡ fatal "reverse result did not preserve caller operation IDs"
unfolding check_reverse go_benefit.Core.Info.validate_reverse_request
    go_benefit.Core.Results.validate_reverse_result
    go_benefit.Core.Outcome.validate_reversal_outcome go_benefit.Core.Outcome.validate_outcome
    go_benefit.Core.Outcome.validate_restoration go_benefit.Prelude.list_beq
lost_id_check = refl
