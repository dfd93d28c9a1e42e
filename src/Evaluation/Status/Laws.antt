-- ===== src/Evaluation/Status/Laws.antt =====
-- The precedence of ResolveStatus, and the failure codes of what it yields.
use go_benefit.Prelude.{◌≡◌, ◌↔◌, ◌⊎◌, false, none, arith}
use go_benefit.Int64.{pos, ◌≤ℤ◌, ◌<ℤ◌, int_eq, beq_ℤ}
use go_benefit.Time.{Time}
use go_benefit.Errors.{ok}
use go_benefit.Core.Status.{Status, Validity, validate_status}
use go_benefit.Evaluation.Status.{StatusFacts, resolve_status, redeem_failure_code_for_status}

-- A time inside a window whose ends are open where they are zero.
pub record Inside (v : Validity) (now : Time) : Type 0 where
  pub started : (v.starts_at.instant ≡ pos 0) ⊎ (v.starts_at.instant ≤ℤ now.instant)
  pub not_over : (v.expires_at.instant ≡ pos 0) ⊎ (now.instant <ℤ v.expires_at.instant)

-- A benefit resolves to active exactly when the provider says active, its usage is not exhausted,
-- and now lies in the half-open validity window.
pub resolve_status-active_iff :
    (now : Time) (facts : StatusFacts)
    → (resolve_status now facts ≡ Status.active) ↔ (
        (facts.provider_status ≡ Status.active)
        × (facts.usage_exhausted ≡ false)
        × Inside facts.validity now)
unfolding resolve_status beq_ℤ
resolve_status-active_iff now facts = ground arith

-- The resolved status is always one that Validate accepts, whatever the provider says.
pub resolve_status-valid :
    (now : Time) (facts : StatusFacts) → validate_status (resolve_status now facts) ≡ ok tt
unfolding resolve_status validate_status
resolve_status-valid now facts = ground arith

-- Resolving again from a resolved status at the same time gives the same status.
pub resolve_status_idempotent :
    (now : Time) (facts : StatusFacts)
    → resolve_status now (record facts { provider_status = resolve_status now facts })
      ≡ resolve_status now facts
unfolding resolve_status
resolve_status_idempotent now facts = ground arith

-- What has expired stays expired at any later time.
pub resolve_status-expired_later :
    (now later : Time) (facts : StatusFacts)
    → now.instant ≤ℤ later.instant
    → resolve_status now facts ≡ Status.expired
    → resolve_status later facts ≡ Status.expired
unfolding resolve_status
resolve_status-expired_later now later facts h e = ground arith

-- A resolved status has no redeem failure code exactly when it is active.
pub redeem_failure_code-resolve_status :
    (now : Time) (facts : StatusFacts)
    → (redeem_failure_code_for_status (resolve_status now facts) ≡ none)
      ↔ (resolve_status now facts ≡ Status.active)
unfolding resolve_status redeem_failure_code_for_status
redeem_failure_code-resolve_status now facts = ground arith
