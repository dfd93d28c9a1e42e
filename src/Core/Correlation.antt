-- ===== src/Core/Correlation.antt =====
-- correlation.go: a provider's result against the request that it answers.
pub mod Laws
pub mod Failures
pub mod Pointers
use go_benefit.Prelude.{Bool, true, false, not, ◌&&◌, ◌||◌, Option, none, some, is_nil, Eq, ◌==◌}
use go_benefit.Text.{Text, text_eq}
use go_benefit.Errors.{
  Check, Result, ok, err, ◌>>=◌, ◌>>◌, fail_if, errorf, sentinel, err_id_mismatch,
}
use go_benefit.Core.Info.{
  RedeemRequest, ReverseRequest, validate_redeem_request, validate_reverse_request,
}
use go_benefit.Core.Results.{
  Redemption, RedeemResult, Reversal, ReverseResult, validate_redeem_result,
  validate_reverse_result,
}

unfoldable pub check_caller_id : Text → Text → Check
check_caller_id requested returned =
    fail_if (not (is_nil returned) && not (returned == requested))
      (errorf "%w: %s" (sentinel err_id_mismatch))

-- The body of `if r.Redemption != nil`.
unfoldable pub correlate_redemption : RedeemRequest → Redemption → Result Redemption
unfolding check_caller_id
correlate_redemption req redemption = do
  check_caller_id req.redemption_id redemption.redemption_id
  ok (record redemption { redemption_id = req.redemption_id })

unfoldable pub correlate_redeem : RedeemRequest → RedeemResult → Result RedeemResult
unfolding correlate_redemption
correlate_redeem req r = do
  validate_redeem_request req
  validate_redeem_result r
  elim r.redemption [
    | none ↦ ok r
    | some redemption ↦ do
      filled ← correlate_redemption req redemption
      ok (record r { redemption = some filled })
  ]

-- The body of `if r.Reversal != nil`.
unfoldable pub correlate_reversal : ReverseRequest → Reversal → Result Reversal
unfolding check_caller_id
correlate_reversal req reversal = do
  check_caller_id req.redemption_id reversal.redemption_id
  check_caller_id req.reversal_id reversal.reversal_id
  fail_if
      (not (is_nil req.provider_redemption_id)
        && not (is_nil reversal.provider_redemption_id)
        && not (req.provider_redemption_id == reversal.provider_redemption_id))
      (errorf "%w: ProviderRedemptionId" (sentinel err_id_mismatch))
  ok (record reversal { redemption_id = req.redemption_id; reversal_id = req.reversal_id })

unfoldable pub correlate_reverse : ReverseRequest → ReverseResult → Result ReverseResult
unfolding correlate_reversal
correlate_reverse req r = do
  validate_reverse_request req
  validate_reverse_result r
  elim r.reversal [
    | none ↦ ok r
    | some reversal ↦ do
      filled ← correlate_reversal req reversal
      ok (record r { reversal = some filled })
  ]
