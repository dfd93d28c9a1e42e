-- ===== src/Core/Driver.antt =====
-- driver.go: descriptors, and the interfaces of definitions and drivers.
pub mod Valid
use go_benefit.Prelude.{not, Option, ◌∷◌, ◌++◌, is_nil, ◌==◌, if◌then◌else◌}
use go_benefit.Text.{Text, text_eq}
use go_benefit.Errors.{Check, Result, ◌>>◌, fail_if, validation_error, errorf}
use go_benefit.Core.Operation.{OperationCapabilities, validate_capabilities}
use go_benefit.Core.Info.{
  DriverType, validate_driver_type, BenefitInfo, InspectRequest, EvaluateRequest, RedeemRequest,
  ReverseRequest,
}
use go_benefit.Core.Results.{EvaluationResult, RedeemResult, ReverseResult}
use go_benefit.Core.Config.{Json, ConfigSchema, validate_config_schema, wrap_error}

pub record TypeDescriptor : Type 0 where
  pub type_name : Text
  pub name : Text
  pub icon : Text

pub record DriverDescriptor : Type 0 where
  pub name : Text
  pub driver_type : DriverType
  pub kind : TypeDescriptor
  pub provider : TypeDescriptor
  pub operations : OperationCapabilities
  pub config_schema : ConfigSchema

-- DriverDescriptor.Descriptor
unfoldable pub type_descriptor : DriverDescriptor → TypeDescriptor
type_descriptor d = record {
  type_name = d.driver_type;
  name = d.name;
  icon = if is_nil d.kind.icon then d.provider.icon else d.kind.icon;
}

-- Provider.Type + "." + Kind.Type
abbrev pub expected_type : DriverDescriptor → DriverType
expected_type d = d.provider.type_name ++ (b'.' ∷ d.kind.type_name)

unfoldable pub validate_descriptor : Json → DriverDescriptor → Check
validate_descriptor json d = do
  validate_driver_type d.driver_type
  fail_if (is_nil d.name) (validation_error "driver descriptor name is empty")
  fail_if (is_nil d.kind.type_name) (validation_error "driver kind type is empty")
  fail_if (is_nil d.provider.type_name) (validation_error "driver provider type is empty")
  fail_if (not (d.driver_type == expected_type d))
      (validation_error "driver type %q must equal provider and kind %q")
  validate_capabilities d.operations
  wrap_error (errorf "benefit: invalid driver %q config schema: %w")
      (validate_config_schema json d.config_schema)

-- A driver over the state `S` of its provider: a call may change the state. `reverse` is `none` where
-- the driver is no Reverser. Descriptor is a method that Go calls anew each time: `descriptor` is what
-- it returns to the first call that a function makes on the driver, and `redescribed` what it returns
-- to that function's next one. The interface documents them as the same, global metadata.
pub record Driver (S : Type 0) : Type 0 where
  pub descriptor : DriverDescriptor
  pub redescribed : DriverDescriptor
  pub inspect : InspectRequest → S → Result BenefitInfo × S
  pub evaluate : EvaluateRequest → S → Result EvaluationResult × S
  pub redeem : RedeemRequest → S → Result RedeemResult × S
  pub reverse : Option (ReverseRequest → S → Result ReverseResult × S)

-- A compiled factory yields a driver, or nil. CompileConfig may return a nil factory.
pub record DriverDefinition (S : Type 0) : Type 0 where
  pub descriptor : DriverDescriptor
  pub validate_config : Text → Check
  pub compile_config : Text → Result (Option (Option (Driver S)))
