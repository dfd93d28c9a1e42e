-- ===== src/Tests/Driver.antt =====
-- The driver registry on a concrete definition.
use go_benefit.Prelude.{◌≡◌, refl, ◌↔◌, ◌⊎◌, true, [], ◌∷◌, arith, Option, some, none, List, ℕ}
use go_benefit.Text.{Text, bytes}
use go_benefit.Errors.{
  ok, err, Error, foreign, errorf, sentinel, is_error, err_not_registered,
  err_invalid_driver_config, err_invalid_definition,
}
use go_benefit.Core.Config.{Json, ConfigSchema, json_schema_draft202012, validate_driver_config}
use go_benefit.Core.Driver.{
  TypeDescriptor, DriverDescriptor, Driver, DriverDefinition, validate_descriptor,
}
use go_benefit.Core.Driver.Valid.{IsDescriptor, validate_descriptor_iff}
use go_benefit.Driver.Registry.{Registry, register, bind, validate_config, find}
use go_benefit.Driver.Registry.State.{Step, Reach, HasEntries, Reach-HasEntries, entry}
use go_benefit.Driver.Registry.Binding.{Binds, Agrees, bind-eq-ok_iff, bind-error, bind-type}

abbrev pub json : Json
json = record {
  decode_object = λ t.
      ok (some ((bytes "$schema", json_schema_draft202012) ∷ (bytes "type", bytes "object") ∷ []));
  decode_string = λ t. ok t;
}

abbrev kind : TypeDescriptor
kind = record { type_name = bytes "coupon"; name = bytes "Coupon"; icon = [] }

abbrev provider : TypeDescriptor
provider = record { type_name = bytes "shop"; name = bytes "Shop"; icon = [] }

abbrev pub descriptor : DriverDescriptor
descriptor = record {
  name = bytes "Shop coupon";
  driver_type = bytes "shop.coupon";
  kind = kind;
  provider = provider;
  operations = [];
  config_schema = record { optional = true; revision = bytes "1"; schema = bytes "{}" };
}

abbrev pub driver : Driver ℕ
driver = record {
  descriptor = descriptor;
  redescribed = descriptor;
  inspect = λ req s. (err (foreign 0), s);
  evaluate = λ req s. (err (foreign 0), s);
  redeem = λ req s. (err (foreign 0), s);
  reverse = none;
}

-- A definition that compiles to the driver, and one whose factory returns nil.
abbrev pub definition : DriverDefinition ℕ
definition = record {
  descriptor = descriptor;
  validate_config = λ t. ok tt;
  compile_config = λ t. ok (some (some driver));
}

abbrev hollow : DriverDefinition ℕ
hollow = record {
  descriptor = descriptor;
  validate_config = λ t. ok tt;
  compile_config = λ t. ok (some none);
}

abbrev pub with_driver : Registry ℕ
with_driver = (bytes "shop.coupon", entry definition) ∷ []

abbrev with_hollow : Registry ℕ
with_hollow = (bytes "shop.coupon", entry hollow) ∷ []

abbrev nil_driver : Error
nil_driver = errorf "%w: driver factory %q returned nil" (sentinel err_invalid_definition)

pub register_run : register json (some []) (some definition) ≡ ok with_driver
unfolding register validate_descriptor go_benefit.Core.Info.validate_driver_type
    go_benefit.Core.Identifier.validate_namespaced_value go_benefit.Prelude.list_beq
    go_benefit.Core.Operation.validate_capabilities go_benefit.Core.Config.validate_config_schema
    go_benefit.Text.Space.trim_space go_benefit.Dict.lookup go_benefit.Dict.insert
register_run = refl

bind_run : bind json (some with_driver) (bytes "shop.coupon") (bytes "{}") ≡ ok driver
unfolding bind go_benefit.Dict.lookup go_benefit.Prelude.list_beq validate_driver_config
    go_benefit.Text.Utf8.valid_utf8 go_benefit.Text.Space.trim_space
    go_benefit.Core.Operation.get_capability
bind_run = refl

bind_hollow_run : bind json (some with_hollow) (bytes "shop.coupon") (bytes "{}") ≡ err nil_driver
unfolding bind go_benefit.Dict.lookup go_benefit.Prelude.list_beq validate_driver_config
    go_benefit.Text.Utf8.valid_utf8 go_benefit.Text.Space.trim_space
bind_hollow_run = refl

accept_hollow_run :
    validate_config json (some with_hollow) (bytes "shop.coupon") (bytes "{}") ≡ ok tt
unfolding validate_config go_benefit.Dict.lookup go_benefit.Prelude.list_beq validate_driver_config
    go_benefit.Text.Utf8.valid_utf8 go_benefit.Text.Space.trim_space
accept_hollow_run = refl

find-hollow : find (some with_hollow) (bytes "shop.coupon") ≡ some (entry hollow)
unfolding find go_benefit.Dict.lookup go_benefit.Prelude.list_beq
find-hollow = refl

hollow-Agrees : Agrees json (some with_hollow) (bytes "shop.coupon") (bytes "{}")
hollow-Agrees registered found =
    let same : entry hollow ≡ registered = ground (arith, find-hollow) in
    rw (← same) (λ h. (some none, refl), λ h. refl)

reach : Reach json with_driver
reach = Reach.next Reach.start (Step.registered (some definition) register_run)

bind-eq-ok_iff_example :
    (bind json (some with_driver) (bytes "shop.coupon") (bytes "{}") ≡ ok driver)
    ↔ Binds json (some with_driver) (bytes "shop.coupon") (bytes "{}") driver
bind-eq-ok_iff_example =
    bind-eq-ok_iff json (some with_driver) (bytes "shop.coupon") (bytes "{}") driver

bind-error_example :
    (is_error nil_driver err_not_registered ≡ true)
    ⊎ (is_error nil_driver err_invalid_driver_config ≡ true)
    ⊎ (is_error nil_driver err_invalid_definition ≡ true)
bind-error_example =
    bind-error json (some with_hollow) (bytes "shop.coupon") (bytes "{}") nil_driver bind_hollow_run

bind-type_example : driver.descriptor.driver_type ≡ bytes "shop.coupon"
bind-type_example = bind-type json (bytes "shop.coupon") (bytes "{}") driver reach bind_run

Reach-HasEntries_example : HasEntries json with_driver
Reach-HasEntries_example = Reach-HasEntries json reach

validate_descriptor_iff_example :
    (validate_descriptor json descriptor ≡ ok tt) ↔ IsDescriptor json descriptor
validate_descriptor_iff_example = validate_descriptor_iff json descriptor
