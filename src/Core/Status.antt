-- ===== src/Core/Status.antt =====
-- status.go and result.go, with the Validate methods of Status and Validity (validation.go).
use go_benefit.Prelude.{Bool, not, ◌&&◌, ◌||◌, Eq, ◌==◌, eq_of_discrete}
use go_benefit.Int64.{int_eq}
use go_benefit.Text.{Text}
use go_benefit.Time.{Time, is_zero, before}
use go_benefit.Errors.{Check, ok, err, fail_if, validation_error}
use native.Mathlib.Decide.{ℕ_discrete}

-- The named constants of a string type, and `other` for any other string.
pub data Status : Type 0 where
  unknown pending active voided expired suspended exhausted : Status
  other : Text → Status

unfoldable pub Status-discrete : Discrete Status
Status-discrete = hlevel ℕ_discrete

instance abbrev pub status_eq : Eq Status
status_eq = eq_of_discrete Status-discrete

abbrev pub is_active : Status → Bool
is_active s = s == Status.active

abbrev pub is_pending : Status → Bool
is_pending s = s == Status.pending

unfoldable pub validate_status : Status → Check
validate_status (Status.other s) = err (validation_error "invalid status %q")
validate_status _ = ok tt

-- The half-open window [starts_at, expires_at); a zero time leaves an end open.
pub record Validity : Type 0 where
  pub starts_at : Time
  pub expires_at : Time

abbrev pub is_zero_validity : Validity → Bool
is_zero_validity v = is_zero v.starts_at && is_zero v.expires_at

unfoldable pub validate_validity : Validity → Check
validate_validity v =
    fail_if
      (not (is_zero v.starts_at)
        && not (is_zero v.expires_at)
        && not (before v.starts_at v.expires_at))
      (validation_error "validity starts_at must be before expires_at")

pub data ResultStatus : Type 0 where
  pending success failure unknown : ResultStatus
  other : Text → ResultStatus

unfoldable pub ResultStatus-discrete : Discrete ResultStatus
ResultStatus-discrete = hlevel ℕ_discrete

instance abbrev pub result_status_eq : Eq ResultStatus
result_status_eq = eq_of_discrete ResultStatus-discrete

abbrev pub is_final : ResultStatus → Bool
is_final s = s == ResultStatus.success || s == ResultStatus.failure

abbrev pub is_pending_result : ResultStatus → Bool
is_pending_result s = s == ResultStatus.pending

abbrev pub is_success_result : ResultStatus → Bool
is_success_result s = s == ResultStatus.success

abbrev pub is_failure_result : ResultStatus → Bool
is_failure_result s = s == ResultStatus.failure

abbrev pub is_unknown_result : ResultStatus → Bool
is_unknown_result s = s == ResultStatus.unknown
