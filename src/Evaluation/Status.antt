-- ===== src/Evaluation/Status.antt =====
-- evaluation/status.go
pub mod Laws
use go_benefit.Prelude.{Bool, true, false, not, ◌&&◌, Option, none, some, if◌then◌else◌, ◌==◌}
use go_benefit.Time.{Time, is_zero, before}
use go_benefit.Core.Status.{Status, Validity}
use go_benefit.Core.Results.{RedeemFailureCode}

-- `none` where the boolean is false.
unfoldable pub redeem_failure_code_for_status : Status → Option RedeemFailureCode
redeem_failure_code_for_status Status.unknown = some RedeemFailureCode.unknown
redeem_failure_code_for_status Status.pending = some RedeemFailureCode.benefit_pending
redeem_failure_code_for_status Status.voided = some RedeemFailureCode.benefit_voided
redeem_failure_code_for_status Status.expired = some RedeemFailureCode.benefit_expired
redeem_failure_code_for_status Status.exhausted = some RedeemFailureCode.benefit_exhausted
redeem_failure_code_for_status Status.suspended = some RedeemFailureCode.benefit_suspended
redeem_failure_code_for_status Status.active = none
redeem_failure_code_for_status (Status.other s) = none

pub record StatusFacts : Type 0 where
  pub usage_exhausted : Bool
  pub provider_status : Status
  pub validity : Validity

-- The cases of the first switch.
abbrev pub is_terminal : Status → Bool
is_terminal Status.voided = true
is_terminal Status.suspended = true
is_terminal Status.exhausted = true
is_terminal Status.expired = true
is_terminal _ = false

-- The last switch.
abbrev pub or_unknown : Status → Status
or_unknown Status.pending = Status.pending
or_unknown Status.active = Status.active
or_unknown _ = Status.unknown

unfoldable pub resolve_status : Time → StatusFacts → Status
resolve_status now facts =
    if is_terminal facts.provider_status
    then facts.provider_status
    else if facts.usage_exhausted
    then Status.exhausted
    else if not (is_zero facts.validity.starts_at) && before now facts.validity.starts_at
    then Status.pending
    else if not (is_zero facts.validity.expires_at) && not (before now facts.validity.expires_at)
    then Status.expired
    else or_unknown facts.provider_status
