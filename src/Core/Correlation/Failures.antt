-- ===== src/Core/Correlation/Failures.antt =====
-- The errors of correlation on valid requests and results.
use go_benefit.Prelude.{◌≡◌, inl, inr, true, arith, Option-cases}
use go_benefit.Errors.{Error, ok, err, is_error, err_id_mismatch}
use go_benefit.Errors.Laws.{IsValidation}
use go_benefit.Core.Info.{
  RedeemRequest, ReverseRequest, validate_redeem_request, validate_reverse_request,
}
use go_benefit.Core.Results.{
  RedeemResult, ReverseResult, validate_redeem_result, validate_reverse_result,
}
use go_benefit.Core.Correlation.{correlate_redeem, correlate_reverse}

-- On a valid request and a valid result, every error of a redeem correlation matches ErrIdMismatch
-- and ErrValidation.
pub correlate_redeem-error :
    (req : RedeemRequest) (r : RedeemResult) (e : Error)
    → validate_redeem_request req ≡ ok tt
    → validate_redeem_result r ≡ ok tt
    → correlate_redeem req r ≡ err e
    → (is_error e err_id_mismatch ≡ true) × IsValidation e
unfolding correlate_redeem is_error
correlate_redeem-error req r e hq hr h = elim (Option-cases r.redemption) [
  | inl missing ↦ absurd (ground arith)
  | inr (s, present) ↦ ground arith
]

-- On a valid request and a valid result, every error of a reverse correlation matches ErrIdMismatch
-- and ErrValidation.
pub correlate_reverse-error :
    (req : ReverseRequest) (r : ReverseResult) (e : Error)
    → validate_reverse_request req ≡ ok tt
    → validate_reverse_result r ≡ ok tt
    → correlate_reverse req r ≡ err e
    → (is_error e err_id_mismatch ≡ true) × IsValidation e
unfolding correlate_reverse is_error
correlate_reverse-error req r e hq hr h = elim (Option-cases r.reversal) [
  | inl missing ↦ absurd (ground arith)
  | inr (s, present) ↦ ground arith
]
