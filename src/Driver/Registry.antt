-- ===== src/Driver/Registry.antt =====
-- driver/registry.go. A registry is a map from driver types to definitions with a snapshot of their
-- descriptors; a nil *Registry is `none`. The methods hold the lock for one read or one check and
-- write, so each is one step on the map.
pub mod State
pub mod Binding
pub mod Listing
pub mod Concurrent
pub mod Shared
use go_benefit.Prelude.{
  Bool, true, false, not, ◌&&◌, Option, none, some, List, [], ◌∷◌, map, is_some, ◌==◌,
}
use mathlib.Core.Option
use go_benefit.Text.{Text, text_eq}
use go_benefit.Text.Order.{sort_by}
use go_benefit.Dict.{Dict, lookup, contains, insert, delete}
use go_benefit.Errors.{
  Check, Result, ok, err, ◌>>=◌, ◌>>◌, fail_if, errorf, errorf_two, sentinel,
  driver_err_nil_registry, err_invalid_definition, driver_err_already_registered,
  err_not_registered, err_invalid_driver_config,
}
use go_benefit.Core.Operation.{
  Operation, OperationCapability, OperationCapabilities, get_capability,
}
use go_benefit.Core.Info.{DriverType}
use go_benefit.Core.Config.{Json, ConfigSchema, validate_driver_config, wrap_error}
use go_benefit.Core.Driver.{DriverDescriptor, Driver, DriverDefinition, validate_descriptor}

-- Copies. Values of the model share no memory, so a copy is equal to what it copies.
unfoldable pub clone_capabilities : OperationCapabilities → OperationCapabilities
clone_capabilities = map (λ c. record { operation = c.operation; modes = map (λ m. m) c.modes })

unfoldable pub clone_schema : ConfigSchema → ConfigSchema
clone_schema s = record s { schema = map (λ b. b) s.schema }

unfoldable pub clone_descriptor : DriverDescriptor → DriverDescriptor
unfolding clone_capabilities clone_schema
clone_descriptor d = record d {
  operations = clone_capabilities d.operations;
  config_schema = clone_schema d.config_schema;
}

pub record RegisteredDriverDefinition (S : Type 0) : Type 0 where
  pub definition : DriverDefinition S
  pub descriptor : DriverDescriptor

abbrev pub Registry : Type 0 → Type 0
Registry S = Dict DriverType (RegisteredDriverDefinition S)

abbrev pub new_registry : {S : Type 0} → Registry S
new_registry = []

module _ {S : Type 0} where
  -- A copy of the descriptor of an entry.
  abbrev pub snapshot : DriverType × RegisteredDriverDefinition S → DriverDescriptor
  snapshot (driver_type, registered) = clone_descriptor registered.descriptor

  -- What happens between Lock and Unlock.
  unfoldable pub add : DriverDefinition S → Registry S → Result (Registry S)
  unfolding clone_descriptor
  add definition definitions = do
    fail_if (contains definition.descriptor.driver_type definitions)
        (errorf "%w: %q" (sentinel driver_err_already_registered))
    ok (
        insert definition.descriptor.driver_type
          (record { definition = definition; descriptor = clone_descriptor definition.descriptor })
          definitions)

  -- A nil definition is `none`.
  unfoldable pub register :
      Json → Option (Registry S) → Option (DriverDefinition S) → Result (Registry S)
  unfolding add
  register json none definition = err (sentinel driver_err_nil_registry)
  register json (some definitions) none =
      err (errorf "%w: definition is nil" (sentinel err_invalid_definition))
  register json (some definitions) (some definition) = do
    wrap_error (errorf_two "%w: driver %q: %w" (sentinel err_invalid_definition))
        (validate_descriptor json definition.descriptor)
    add definition definitions

  unfoldable pub unregister : Option (Registry S) → DriverType → Option (Registry S) × Bool
  unregister none driver_type = (none, false)
  unregister (some definitions) driver_type =
      (some (delete driver_type definitions), contains driver_type definitions)

  -- The private method get.
  unfoldable pub find : Option (Registry S) → DriverType → Option (RegisteredDriverDefinition S)
  find none driver_type = none
  find (some definitions) driver_type = lookup driver_type definitions

  unfoldable pub get : Option (Registry S) → DriverType → Option (DriverDefinition S)
  unfolding find
  get r driver_type = elim (find r driver_type) [
    | none ↦ none
    | some registered ↦ some registered.definition
  ]

  unfoldable pub config_schema : Option (Registry S) → DriverType → Option ConfigSchema
  unfolding find clone_schema
  config_schema r driver_type = elim (find r driver_type) [
    | none ↦ none
    | some registered ↦ some (clone_schema registered.descriptor.config_schema)
  ]

  unfoldable pub descriptors : Option (Registry S) → List DriverDescriptor
  unfolding sort_by clone_descriptor
  descriptors none = []
  descriptors (some definitions) = sort_by (λ d. d.driver_type) (map snapshot definitions)

  unfoldable pub validate_config : Json → Option (Registry S) → DriverType → Text → Check
  unfolding find
  validate_config json r driver_type config = elim (find r driver_type) [
    | none ↦ err (errorf "%w: %q" (sentinel err_not_registered))
    | some registered ↦ do
      validate_driver_config json config
      wrap_error (errorf_two "%w: validate driver %q: %w" (sentinel err_invalid_driver_config))
          (registered.definition.validate_config config)
  ]

  -- validateDriverOperation at Reverser and OperationReverse. Bind has called Descriptor before.
  unfoldable pub validate_driver_operation : Driver S → Check
  validate_driver_operation driver =
      fail_if
        (is_some (get_capability driver.redescribed.operations Operation.reverse)
          && not (is_some driver.reverse))
        (errorf "%w: driver %q declares %q but does not implement Reverser"
          (sentinel err_invalid_definition))

  -- What Bind does with the value of CompileConfig.
  unfoldable pub build :
      RegisteredDriverDefinition S → Option (Option (Driver S)) → Result (Driver S)
  unfolding validate_driver_operation
  build registered none =
      err (errorf "%w: driver %q returned a nil factory" (sentinel err_invalid_definition))
  build registered (some none) =
      err (errorf "%w: driver factory %q returned nil" (sentinel err_invalid_definition))
  build registered (some (some driver)) = do
    fail_if (not (driver.descriptor.driver_type == registered.descriptor.driver_type))
        (errorf "%w: driver %q returned descriptor for type %q" (sentinel err_invalid_definition))
    validate_driver_operation driver
    ok driver

  unfoldable pub bind : Json → Option (Registry S) → DriverType → Text → Result (Driver S)
  unfolding find build
  bind json r driver_type config = elim (find r driver_type) [
    | none ↦ err (errorf "%w: %q" (sentinel err_not_registered))
    | some registered ↦ do
      validate_driver_config json config
      factory ←
          wrap_error (errorf_two "%w: compile driver %q: %w" (sentinel err_invalid_driver_config))
            (registered.definition.compile_config config)
      build registered factory
  ]
