-- ===== src/Core/Results/Valid.antt =====
-- What validation of evaluation, redeem and reverse results accepts.
use go_benefit.Prelude.{
  ◌≡◌, refl, ◌≢◌, ◌↔◌, inl, inr, Bool, true, false, Option, some, none, arith, is_some,
  Option-cases, ◌==◌,
}
use go_benefit.Errors.{ok, Check}
use go_benefit.Core.Status.{ResultStatus, result_status_eq}
use go_benefit.Core.Outcome.{validate_outcome}
use go_benefit.Core.Constraint.{ConstraintReportStatus}
use go_benefit.Core.Results.{
  EvaluationResult, EvaluationFailure, EvaluationFailureCode, validate_evaluation_result,
  validate_eligible, validate_ineligible, RedeemResult, Redemption, RedeemFailure,
  validate_redemption, validate_redeem_result, validate_redeem_payload, ReverseResult, Reversal,
  ReversalFailure, validate_reversal, validate_reverse_result, validate_reverse_payload,
}

abbrev pub IsKnown : ResultStatus → Type 0
IsKnown (ResultStatus.other s) = ⊥
IsKnown _ = Unit

-- The invariant of a result under its status: a record exactly on success, a failure exactly on
-- failure, and a valid record.
pub record IsPayload {F S : Type 0} (validate : S → Check) (status : ResultStatus)
    (failure : Option F) (success : Option S) : Type 0 where
  pub known : IsKnown status
  pub success_only : is_some success ≡ (status == ResultStatus.success)
  pub failure_only : is_some failure ≡ (status == ResultStatus.failure)
  pub valid : (s : S) → success ≡ some s → validate s ≡ ok tt

redeem-IsPayload_iff :
    (status : ResultStatus) (failure : Option RedeemFailure) (redemption : Option Redemption)
    → (validate_redeem_payload status failure redemption ≡ ok tt)
      ↔ IsPayload validate_redemption status failure redemption
unfolding validate_redeem_payload
redeem-IsPayload_iff ResultStatus.success failure none = ground arith
redeem-IsPayload_iff ResultStatus.success failure (some s) = (
  λ h. record {
    known = tt;
    success_only = ground arith;
    failure_only = ground arith;
    valid = λ t e. ground arith;
  },
  λ h. ground (arith, h.valid s refl),
)
redeem-IsPayload_iff ResultStatus.failure failure r = (
  λ h. record {
    known = tt;
    success_only = ground arith;
    failure_only = ground arith;
    valid = λ t e. ground arith;
  },
  λ h. ground arith,
)
redeem-IsPayload_iff (ResultStatus.other t) failure r = ground arith
redeem-IsPayload_iff _ failure r = (
  λ h. record {
    known = tt;
    success_only = ground arith;
    failure_only = ground arith;
    valid = λ t e. ground arith;
  },
  λ h. ground arith,
)

-- A redeem result is accepted exactly when its status is known, it has a redemption just on success
-- and a failure just on failure, and the redemption is valid.
pub validate_redeem_result_iff :
    (r : RedeemResult)
    → (validate_redeem_result r ≡ ok tt)
      ↔ IsPayload validate_redemption r.status r.failure r.redemption
unfolding validate_redeem_result
validate_redeem_result_iff r = redeem-IsPayload_iff r.status r.failure r.redemption

reverse-IsPayload_iff :
    (status : ResultStatus) (failure : Option ReversalFailure) (reversal : Option Reversal)
    → (validate_reverse_payload status failure reversal ≡ ok tt)
      ↔ IsPayload validate_reversal status failure reversal
unfolding validate_reverse_payload
reverse-IsPayload_iff ResultStatus.success failure none = ground arith
reverse-IsPayload_iff ResultStatus.success failure (some s) = (
  λ h. record {
    known = tt;
    success_only = ground arith;
    failure_only = ground arith;
    valid = λ t e. ground arith;
  },
  λ h. ground (arith, h.valid s refl),
)
reverse-IsPayload_iff ResultStatus.failure failure r = (
  λ h. record {
    known = tt;
    success_only = ground arith;
    failure_only = ground arith;
    valid = λ t e. ground arith;
  },
  λ h. ground arith,
)
reverse-IsPayload_iff (ResultStatus.other t) failure r = ground arith
reverse-IsPayload_iff _ failure r = (
  λ h. record {
    known = tt;
    success_only = ground arith;
    failure_only = ground arith;
    valid = λ t e. ground arith;
  },
  λ h. ground arith,
)

-- A reverse result is accepted exactly when its status is known, it has a reversal just on success
-- and a failure just on failure, and the reversal is valid.
pub validate_reverse_result_iff :
    (r : ReverseResult)
    → (validate_reverse_result r ≡ ok tt)
      ↔ IsPayload validate_reversal r.status r.failure r.reversal
unfolding validate_reverse_result
validate_reverse_result_iff r = reverse-IsPayload_iff r.status r.failure r.reversal

-- An eligible evaluation: no failure, constraints that are not unsatisfied, and a valid outcome.
pub record IsEligible (r : EvaluationResult) : Type 0 where
  pub no_failure : r.failure ≡ none
  pub constraints : r.constraints.status ≢ ConstraintReportStatus.unsatisfied
  pub outcome : validate_outcome r.outcome ≡ ok tt

-- An ineligible evaluation: a failure with a code, and no outcome.
pub record IsIneligible (r : EvaluationResult) : Type 0 where
  pub failure : EvaluationFailure
  pub present : r.failure ≡ some failure
  pub coded : failure.code ≢ EvaluationFailureCode.empty
  pub no_outcome : r.outcome.discount ≡ none

abbrev pub IsEvaluation : Bool → EvaluationResult → Type 0
IsEvaluation true r = IsEligible r
IsEvaluation false r = IsIneligible r

IsEligible-iff : (r : EvaluationResult) → (validate_eligible r ≡ ok tt) ↔ IsEligible r
unfolding validate_eligible
IsEligible-iff r = ground arith

IsIneligible-from : (r : EvaluationResult) → validate_ineligible r ≡ ok tt → IsIneligible r
unfolding validate_ineligible
IsIneligible-from r h = elim (Option-cases r.failure) [
  | inl missing ↦ absurd (ground arith)
  | inr (f, present) ↦ record {
    failure = f;
    present = present;
    coded = ground arith;
    no_outcome = ground arith;
  }
]

ineligible_of : (r : EvaluationResult) → IsIneligible r → validate_ineligible r ≡ ok tt
unfolding validate_ineligible
ineligible_of r h = ground arith

IsEvaluation-by_eligible :
    (b : Bool) (r : EvaluationResult)
    → r.eligible ≡ b
    → (validate_evaluation_result r ≡ ok tt) ↔ IsEvaluation b r
unfolding validate_evaluation_result
IsEvaluation-by_eligible true r e = simp e (IsEligible-iff r)
IsEvaluation-by_eligible false r e = simp e (IsIneligible-from r, ineligible_of r)

-- An evaluation result is accepted exactly when, being eligible, it has no failure, constraints that
-- are not unsatisfied and a valid outcome, and, being ineligible, a failure with a code and no
-- outcome.
pub validate_evaluation_result_iff :
    (r : EvaluationResult) → (validate_evaluation_result r ≡ ok tt) ↔ IsEvaluation r.eligible r
validate_evaluation_result_iff r = IsEvaluation-by_eligible r.eligible r refl
