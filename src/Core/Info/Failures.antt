-- ===== src/Core/Info/Failures.antt =====
-- Validation errors of the models and requests match ErrValidation.
use go_benefit.Prelude.{◌≡◌, List, [], ◌∷◌, arith}
use go_benefit.Errors.{Error, err, is_error}
use go_benefit.Errors.Laws.{IsValidation}
use go_benefit.Core.Identifier.{validate_namespaced_value}
use go_benefit.Core.Status.{validate_status, validate_validity}
use go_benefit.Core.Operation.{
  Operation, OperationMode, OperationPolicies, OperationCapabilities, validate_policies,
  validate_modes_from, validate_operation_modes, validate_policy, validate_capabilities_from,
}
use go_benefit.Core.Money.{validate_currency_code, validate_discount_effect, DiscountEffect}
use go_benefit.Core.Info.{
  Notice, BenefitInfo, validate_notices, validate_usage, validate_driver_type,
  validate_benefit_info,
}
use go_benefit.Text.{Text}

pub validate_currency_code-error :
    (code : Text) (e : Error) → validate_currency_code code ≡ err e → IsValidation e
unfolding validate_currency_code is_error
validate_currency_code-error [] e h = cc
validate_currency_code-error (c ∷ code) e h = ground arith

pub validate_discount_effect-error :
    (d : DiscountEffect) (e : Error) → validate_discount_effect d ≡ err e → IsValidation e
unfolding validate_discount_effect is_error
validate_discount_effect-error d e h = ground (arith, validate_currency_code-error d.currency e)

validate_modes_from-error :
    (operation : Operation) (seen modes : List OperationMode) (e : Error)
    → validate_modes_from operation seen modes ≡ err e
    → IsValidation e
unfolding validate_modes_from is_error
validate_modes_from-error operation seen [] e h = cc
validate_modes_from-error operation seen (m ∷ modes) e h =
    ground (arith, validate_modes_from-error operation (m ∷ seen) modes e)

pub validate_capabilities_from-error :
    (seen : List Operation) (cs : OperationCapabilities) (e : Error)
    → validate_capabilities_from seen cs ≡ err e
    → IsValidation e
unfolding validate_capabilities_from validate_operation_modes is_error
validate_capabilities_from-error seen [] e h = cc
validate_capabilities_from-error seen (c ∷ cs) e h = ground (
  arith,
  validate_modes_from-error c.operation [] c.modes e,
  validate_capabilities_from-error (c.operation ∷ seen) cs e,
)

pub validate_policies-error :
    (ps : OperationPolicies) (e : Error) → validate_policies ps ≡ err e → IsValidation e
unfolding validate_policies validate_policy validate_operation_modes is_error
validate_policies-error [] e h = cc
validate_policies-error (p ∷ ps) e h =
    ground (
      arith,
      validate_modes_from-error p.operation [] p.match_modes e,
      validate_policies-error ps e,
    )

validate_notices-error :
    (ns : List Notice) (e : Error) → validate_notices ns ≡ err e → IsValidation e
unfolding validate_notices is_error
validate_notices-error [] e h = cc
validate_notices-error (n ∷ ns) e h = ground (arith, validate_notices-error ns e)

-- Every error of BenefitInfo.Validate matches ErrValidation.
pub validate_benefit_info-error :
    (b : BenefitInfo) (e : Error) → validate_benefit_info b ≡ err e → IsValidation e
unfolding validate_benefit_info validate_driver_type validate_namespaced_value validate_status
    validate_validity validate_usage is_error
validate_benefit_info-error b e h =
    ground
      (arith, validate_policies-error b.operation_policies e, validate_notices-error b.notices e)
