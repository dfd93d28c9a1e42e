-- ===== src/Core/Info.antt =====
-- model.go and the requests of driver.go, with their Validate methods (validation.go).
pub mod Failures
use go_benefit.Prelude.{
  ℕ, Bool, true, false, not, ◌&&◌, ◌||◌, Option, none, some, List, [], ◌∷◌, is_nil, ◌==◌,
}
use go_benefit.Int64.{ℤ, pos, ltb_ℤ}
use go_benefit.Text.{Text}
use go_benefit.Errors.{Check, ok, err, ◌>>=◌, ◌>>◌, fail_if, validation_error}
use go_benefit.Core.Identifier.{validate_namespaced_value}
use go_benefit.Core.Status.{Status, Validity, validate_status, validate_validity}
use go_benefit.Core.Constraint.{Constraint}
use go_benefit.Core.Operation.{OperationPolicies, OperationMode, validate_policies}
use go_benefit.Core.Diagnostic.{Value}

abbrev pub DriverType : Type 0
DriverType = Text

abbrev pub driver_type_string : DriverType → Text
driver_type_string t = t

unfoldable pub validate_driver_type : DriverType → Check
validate_driver_type t = validate_namespaced_value t

pub record Usage : Type 0 where
  pub redeemed_count : ℤ
  pub remaining_count : ℤ
  pub unlimited : Bool

unfoldable pub validate_usage : Usage → Check
validate_usage u =
    fail_if (ltb_ℤ u.redeemed_count (pos 0) || ltb_ℤ u.remaining_count (pos 0))
      (validation_error "usage counters must not be negative")

pub data NoticeLevel : Type 0 where
  info warning error : NoticeLevel
  other : Text → NoticeLevel

pub record Notice : Type 0 where
  pub code : Text
  pub level : NoticeLevel
  pub text : Text
  pub lang : Text

abbrev pub is_known_level : NoticeLevel → Bool
is_known_level (NoticeLevel.other s) = false
is_known_level _ = true

unfoldable pub validate_notice : Notice → Check
validate_notice n = do
  fail_if (is_nil n.code) (validation_error "notice code is empty")
  fail_if (not (is_known_level n.level)) (validation_error "invalid notice level %q")
  fail_if (is_nil n.text) (validation_error "notice text is empty")
  fail_if (is_nil n.lang) (validation_error "notice language is empty")

unfoldable pub validate_notices : List Notice → Check
unfolding validate_notice
validate_notices [] = ok tt
validate_notices (n ∷ notices) = do validate_notice n; validate_notices notices

pub record BenefitInfo : Type 0 where
  pub name : Text
  pub status : Status
  pub driver_type : DriverType
  pub usage : Usage
  pub validity : Validity
  pub constraints : List Constraint
  pub operation_policies : OperationPolicies
  pub notices : List Notice
  pub provider_benefit_id : Text
  pub provider_data : Text

unfoldable pub validate_benefit_info : BenefitInfo → Check
validate_benefit_info b = do
  validate_driver_type b.driver_type
  validate_status b.status
  validate_validity b.validity
  validate_usage b.usage
  validate_policies b.operation_policies
  validate_notices b.notices

-- The reference is the text of a BenefitReference; the input is any value of the application.
pub record DriverRequest : Type 0 where
  pub reference : Text
  pub input : Option Value

pub record InspectRequest : Type 0 where
  pub request : DriverRequest

pub record EvaluateRequest : Type 0 where
  pub request : DriverRequest

abbrev pub is_zero_reference : Text → Bool
is_zero_reference = is_nil

pub record RedeemRequest : Type 0 where
  pub request : DriverRequest
  pub redemption_id : Text
  pub evaluation_token : Text

pub record ReverseRequest : Type 0 where
  pub request : DriverRequest
  pub reversal_id : Text
  pub redemption_id : Text
  pub provider_redemption_id : Text
  pub mode : OperationMode
  pub reason : Text

unfoldable pub validate_redeem_request : RedeemRequest → Check
validate_redeem_request r =
    fail_if (is_zero_reference r.request.reference) (validation_error "benefit reference is empty")

abbrev pub is_reverse_mode : OperationMode → Bool
is_reverse_mode (OperationMode.other s) = false
is_reverse_mode _ = true

unfoldable pub validate_reverse_request : ReverseRequest → Check
validate_reverse_request r = do
  fail_if (is_zero_reference r.request.reference) (validation_error "benefit reference is empty")
  fail_if (not (is_reverse_mode r.mode)) (validation_error "invalid reverse operation mode %q")
