-- ===== src/Core/Results.antt =====
-- result_evaluate.go, result_redeem.go and result_reversal.go.
pub mod Valid
use go_benefit.Prelude.{
  Bool, true, false, not, ◌&&◌, ◌||◌, Option, none, some, List, [], ◌∷◌, is_some, Eq, ◌==◌,
  eq_of_discrete, if◌then◌else◌,
}
use go_benefit.Text.{Text}
use go_benefit.Time.{Time}
use go_benefit.Errors.{Check, ok, err, ◌>>=◌, ◌>>◌, fail_if, validation_error}
use go_benefit.Core.Diagnostic.{Diagnostic}
use go_benefit.Core.Status.{ResultStatus}
use go_benefit.Core.Outcome.{
  BenefitOutcome, ReversalOutcome, is_zero_outcome, validate_outcome, validate_reversal_outcome,
}
use go_benefit.Core.Constraint.{
  ConstraintDecision, ConstraintReport, ConstraintReportStatus, report_status_eq,
}
use native.Mathlib.Decide.{ℕ_discrete}

pub data EvaluationFailureCode : Type 0 where
  empty benefit_not_found benefit_inactive constraint_unsatisfied : EvaluationFailureCode
  other : Text → EvaluationFailureCode

abbrev pub is_empty_code : EvaluationFailureCode → Bool
is_empty_code EvaluationFailureCode.empty = true
is_empty_code _ = false

pub record EvaluationFailure : Type 0 where
  pub code : EvaluationFailureCode
  pub diagnostic : Diagnostic

pub record EvaluationResult : Type 0 where
  pub eligible : Bool
  pub constraints : ConstraintReport
  pub failure : Option EvaluationFailure
  pub outcome : BenefitOutcome
  pub expires_at : Time
  pub evaluation_token : Text

-- `r.Failure == nil || r.Failure.Code == ""`
abbrev pub lacks_code : Option EvaluationFailure → Bool
lacks_code none = true
lacks_code (some f) = is_empty_code f.code

unfoldable pub validate_eligible : EvaluationResult → Check
validate_eligible r = do
  fail_if (is_some r.failure) (validation_error "eligible evaluation has a failure")
  fail_if (r.constraints.status == ConstraintReportStatus.unsatisfied)
      (validation_error "eligible evaluation has unsatisfied constraints")
  validate_outcome r.outcome

unfoldable pub validate_ineligible : EvaluationResult → Check
validate_ineligible r = do
  fail_if (lacks_code r.failure) (validation_error "ineligible evaluation has no failure code")
  fail_if (not (is_zero_outcome r.outcome))
      (validation_error "ineligible evaluation has an outcome")

unfoldable pub validate_evaluation_result : EvaluationResult → Check
unfolding validate_eligible validate_ineligible
validate_evaluation_result r = if r.eligible then validate_eligible r else validate_ineligible r

pub data RedeemFailureCode : Type 0 where
  empty unknown constraint_unsatisfied benefit_not_found benefit_pending : RedeemFailureCode
  benefit_suspended benefit_exhausted benefit_redeemed benefit_expired : RedeemFailureCode
  benefit_voided provider_unavailable provider_rejected provider_timeout : RedeemFailureCode
  other : Text → RedeemFailureCode

pub record RedeemFailure : Type 0 where
  pub code : RedeemFailureCode
  pub diagnostic : Diagnostic
  pub violations : List ConstraintDecision

pub record Redemption : Type 0 where
  pub redemption_id : Text
  pub provider_redemption_id : Text
  pub redeemed_at : Time
  pub outcome : BenefitOutcome
  pub provider_data : Text

unfoldable pub validate_redemption : Redemption → Check
validate_redemption r = validate_outcome r.outcome

pub record RedeemResult : Type 0 where
  pub status : ResultStatus
  pub failure : Option RedeemFailure
  pub redemption : Option Redemption

-- The switch of RedeemResult.Validate over the status, the failure and the redemption.
unfoldable pub validate_redeem_payload :
    ResultStatus → Option RedeemFailure → Option Redemption → Check
unfolding validate_redemption
validate_redeem_payload ResultStatus.success failure none =
    err (validation_error "successful redeem result has no redemption")
validate_redeem_payload ResultStatus.success failure (some r) = do
  fail_if (is_some failure) (validation_error "successful redeem result has a failure")
  validate_redemption r
validate_redeem_payload ResultStatus.failure failure r = do
  fail_if (not (is_some failure)) (validation_error "failed redeem result has no failure")
  fail_if (is_some r) (validation_error "failed redeem result has a redemption")
validate_redeem_payload (ResultStatus.other s) failure r =
    err (validation_error "invalid redeem result status %q")
validate_redeem_payload _ failure r = do
  fail_if (is_some failure) (validation_error "%s redeem result must not claim a confirmed failure")
  fail_if (is_some r) (validation_error "%s redeem result has a redemption")

unfoldable pub validate_redeem_result : RedeemResult → Check
unfolding validate_redeem_payload
validate_redeem_result r = validate_redeem_payload r.status r.failure r.redemption

pub data ReversalFailureCode : Type 0 where
  unknown redemption_not_found redemption_reversed redemption_irreversible : ReversalFailureCode
  reversal_unsupported reversal_partial_unsupported : ReversalFailureCode
  reversal_window_expired provider_unavailable provider_rejected : ReversalFailureCode
  provider_timeout : ReversalFailureCode
  other : Text → ReversalFailureCode

pub record ReversalFailure : Type 0 where
  pub code : ReversalFailureCode
  pub diagnostic : Diagnostic

pub record Reversal : Type 0 where
  pub redemption_id : Text
  pub provider_redemption_id : Text
  pub reversal_id : Text
  pub provider_reversal_id : Text
  pub reversed_at : Time
  pub outcome : ReversalOutcome
  pub provider_data : Text

unfoldable pub validate_reversal : Reversal → Check
validate_reversal r = validate_reversal_outcome r.outcome

pub record ReverseResult : Type 0 where
  pub status : ResultStatus
  pub failure : Option ReversalFailure
  pub reversal : Option Reversal

-- The switch of ReverseResult.Validate over the status, the failure and the reversal.
unfoldable pub validate_reverse_payload :
    ResultStatus → Option ReversalFailure → Option Reversal → Check
unfolding validate_reversal
validate_reverse_payload ResultStatus.success failure none =
    err (validation_error "successful reverse result has no reversal")
validate_reverse_payload ResultStatus.success failure (some r) = do
  fail_if (is_some failure) (validation_error "successful reverse result has a failure")
  validate_reversal r
validate_reverse_payload ResultStatus.failure failure r = do
  fail_if (not (is_some failure)) (validation_error "failed reverse result has no failure")
  fail_if (is_some r) (validation_error "failed reverse result has a reversal")
validate_reverse_payload (ResultStatus.other s) failure r =
    err (validation_error "invalid reverse result status %q")
validate_reverse_payload _ failure r = do
  fail_if (is_some failure)
      (validation_error "%s reverse result must not claim a confirmed failure")
  fail_if (is_some r) (validation_error "%s reverse result has a reversal")

unfoldable pub validate_reverse_result : ReverseResult → Check
unfolding validate_reverse_payload
validate_reverse_result r = validate_reverse_payload r.status r.failure r.reversal
