-- ===== src/Driver/Default.antt =====
-- The registry of the package driver, and its helpers; a panic is `none`.
pub mod Laws
use go_benefit.Prelude.{Option, none, some, []}
use go_benefit.Text.{Text}
use go_benefit.Errors.{Result, Check, ok, err}
use go_benefit.Core.Info.{DriverType}
use go_benefit.Core.Config.{Json}
use go_benefit.Core.Driver.{Driver, DriverDefinition}
use go_benefit.Driver.Registry.{Registry, new_registry}
use go_benefit.Driver.Registry

module _ {S : Type 0} where
  -- What the variable holds at first. No other package sets it.
  abbrev pub default_registry : Registry S
  default_registry = new_registry

  unfoldable pub register : Json → Registry S → Option (DriverDefinition S) → Result (Registry S)
  unfolding Registry.register
  register json default definition = Registry.register json (some default) definition

  unfoldable pub must_register :
      Json → Registry S → Option (DriverDefinition S) → Option (Registry S)
  unfolding register
  must_register json default definition = elim (register json default definition) [
    | err e ↦ none
    | ok after ↦ some after
  ]

  unfoldable pub validate_config : Json → Registry S → DriverType → Text → Check
  unfolding Registry.validate_config
  validate_config json default driver_type config =
      Registry.validate_config json (some default) driver_type config

  unfoldable pub bind : Json → Registry S → DriverType → Text → Result (Driver S)
  unfolding Registry.bind
  bind json default driver_type config = Registry.bind json (some default) driver_type config
