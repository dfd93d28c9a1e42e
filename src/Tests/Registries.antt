-- ===== src/Tests/Registries.antt =====
-- Listings and the registries of the packages, on registries with two entries.
use go_benefit.Prelude.{
  ◌≤◌, List, ℕ, ◌≡◌, refl, ◌↔◌, true, false, none, some, [], ◌∷◌, All, Option, arith, is_some, ◌==◌,
  eq_iff, if◌then◌else◌,
}
use go_benefit.Text.{Text, bytes, text_eq}
use go_benefit.Dict.{lookup}
use go_benefit.Errors.{ok}
use go_benefit.Core.Operation.{Operation, get_capability}
use go_benefit.Core.Info.{DriverType}
use go_benefit.Core.Config.{validate_driver_config}
use go_benefit.Core.Driver.{DriverDescriptor, DriverDefinition}
use go_benefit.Core.Constraint.{ConstraintType}
use go_benefit.Constraint.Types.{EvaluatorValue, weekday_type}
use go_benefit.Constraint.Registry.{Registry, register, get, types}
use go_benefit.Constraint.Registry.State.{Step, Reach}
use go_benefit.Core.Constraint.{Constraint}
use go_benefit.Constraint.Registry.{evaluate_all}
use go_benefit.Constraint.Registry.Racing.{
  evaluate_all_racing, Grown, constraints_of, evaluate_all_racing-bounds,
  evaluate_all_racing-eq-evaluate_all,
}
use go_benefit.Constraint.Registry.Listing.{types_unique}
use go_benefit.Constraint.Builtin.Register.Laws.{builtins, new_default_registry_lem}
use go_benefit.Constraint.Default.{default_registry, evaluate_default, Grows}
use go_benefit.Constraint.Default.Laws.{Grows-recognized}
use go_benefit.Driver.Registry.{find, descriptors, RegisteredDriverDefinition}
use go_benefit.Driver.Registry.State.{entry}
use go_benefit.Driver.Registry
use go_benefit.Driver.Registry.State
use go_benefit.Driver.Registry.Listing.{described, descriptors_unique}
use go_benefit.Driver.Default.{must_register, bind}
use go_benefit.Driver.Default.Laws.{Later, must_register-bind_iff}
use go_benefit.Tests.Constraint.{
  always_type, lost_type, always, registry, platform, calm, at_noon, of_type, register_run,
}
use go_benefit.Tests.Driver.{
  json, descriptor, definition, driver, with_driver, register_run as driver_run,
}

abbrev always_first : Registry
always_first = (always_type, always) ∷ (lost_type, always) ∷ []

abbrev lost_only : Registry
lost_only = (lost_type, always) ∷ []

abbrev lost_first : Registry
lost_first = (lost_type, always) ∷ (always_type, always) ∷ []

second_run : register (some registry) lost_type (EvaluatorValue.object always) ≡ ok always_first
unfolding register go_benefit.Core.Constraint.validate_constraint_type
    go_benefit.Core.Identifier.validate_namespaced_value lookup go_benefit.Prelude.list_beq
    go_benefit.Dict.insert
second_run = refl

lost_run : register (some []) lost_type (EvaluatorValue.object always) ≡ ok lost_only
unfolding register go_benefit.Core.Constraint.validate_constraint_type
    go_benefit.Core.Identifier.validate_namespaced_value lookup go_benefit.Dict.insert
lost_run = refl

lost_second_run :
    register (some lost_only) always_type (EvaluatorValue.object always) ≡ ok lost_first
unfolding register go_benefit.Core.Constraint.validate_constraint_type
    go_benefit.Core.Identifier.validate_namespaced_value lookup go_benefit.Prelude.list_beq
    go_benefit.Dict.insert
lost_second_run = refl

always_first-Reach : Reach always_first
always_first-Reach =
    Reach.next
      (Reach.next Reach.start
        (Step.registered always_type (EvaluatorValue.object always) register_run))
      (Step.registered lost_type (EvaluatorValue.object always) second_run)

lost_first-Reach : Reach lost_first
lost_first-Reach =
    Reach.next
      (Reach.next Reach.start (Step.registered lost_type (EvaluatorValue.object always) lost_run))
      (Step.registered always_type (EvaluatorValue.object always) lost_second_run)

same_types :
    (k : ConstraintType) → is_some (get (some always_first) k) ≡ is_some (get (some lost_first) k)
unfolding get lookup
same_types k = ground arith

types_unique_example : types (some always_first) ≡ types (some lost_first)
types_unique_example =
    types_unique always_first lost_first always_first-Reach lost_first-Reach same_types

-- The second evaluator is registered between the two lookups.
abbrev raced : List (Registry × Constraint)
raced = (registry, of_type lost_type) ∷ (always_first, of_type always_type) ∷ []

abbrev raced_known : List (Registry × Constraint)
raced_known = (registry, of_type always_type) ∷ (always_first, of_type always_type) ∷ []

registry-Grown : Grown registry always_first
registry-Grown =
    Grown.registered lost_type (EvaluatorValue.object always) Grown.unchanged second_run

raced_run : (evaluate_all_racing calm at_noon raced).unrecognized ≡ 1
unfolding evaluate_all_racing go_benefit.Core.Constraint.ConstraintDecisionCode-discrete lookup
    go_benefit.Prelude.list_beq go_benefit.Core.Constraint.constraint_satisfied
raced_run = refl

evaluate_all_racing-bounds_example :
    ((evaluate_all (some always_first) calm at_noon (constraints_of raced)).unrecognized
      ≤ (evaluate_all_racing calm at_noon raced).unrecognized)
    × ((evaluate_all_racing calm at_noon raced).unrecognized
        ≤ (evaluate_all (some registry) calm at_noon (constraints_of raced)).unrecognized)
evaluate_all_racing-bounds_example =
    evaluate_all_racing-bounds calm at_noon registry raced always_first
      (Grown.unchanged, (registry-Grown, Grown.unchanged))

always_known : is_some (get (some registry) always_type) ≡ true
unfolding get lookup go_benefit.Prelude.list_beq
always_known = refl

evaluate_all_racing-eq-evaluate_all_example :
    evaluate_all_racing calm at_noon raced_known
    ≡ evaluate_all (some registry) calm at_noon (constraints_of raced_known)
evaluate_all_racing-eq-evaluate_all_example =
    evaluate_all_racing-eq-evaluate_all calm at_noon registry raced_known always_first
      (Grown.unchanged, (registry-Grown, Grown.unchanged)) (always_known, (always_known, tt))

default_run : default_registry platform ≡ some (some (builtins platform))
unfolding default_registry
default_run = ground (arith, new_default_registry_lem platform)

weekday_builtin : is_some (get (some (builtins platform)) weekday_type) ≡ true
unfolding get lookup go_benefit.Prelude.list_beq
weekday_builtin = refl

Grows-recognized_example :
    (evaluate_default
      (some (builtins platform))
      calm
      at_noon
      (of_type weekday_type ∷ [])).unrecognized
    ≡ 0
Grows-recognized_example =
    Grows-recognized (Grows.initial default_run) calm at_noon (of_type weekday_type ∷ [])
      (weekday_builtin, tt)

must_run : must_register json [] (some definition) ≡ some with_driver
unfolding must_register go_benefit.Core.Driver.validate_descriptor
    go_benefit.Core.Info.validate_driver_type go_benefit.Core.Identifier.validate_namespaced_value
    go_benefit.Prelude.list_beq go_benefit.Core.Operation.validate_capabilities
    go_benefit.Core.Config.validate_config_schema go_benefit.Text.Space.trim_space lookup
    go_benefit.Dict.insert
must_run = refl

must_register-bind_iff_example :
    (bind json with_driver (bytes "shop.coupon") (bytes "{}") ≡ ok driver) ↔ (
      (validate_driver_config json (bytes "{}") ≡ ok tt)
      × (definition.compile_config (bytes "{}") ≡ ok (some (some driver)))
      × (driver.descriptor.driver_type ≡ bytes "shop.coupon")
      × (is_some (get_capability driver.descriptor.operations Operation.reverse) ≡ true
          → is_some driver.reverse ≡ true))
must_register-bind_iff_example =
    must_register-bind_iff json [] with_driver with_driver definition (bytes "{}") driver must_run
      Later.unchanged

abbrev points : DriverDefinition ℕ
points = record definition {
  descriptor = record descriptor {
    driver_type = bytes "shop.points";
    kind = record { type_name = bytes "points"; name = bytes "Points"; icon = [] };
  };
}

abbrev coupon_entry : DriverType × RegisteredDriverDefinition ℕ
coupon_entry = (bytes "shop.coupon", entry definition)

abbrev points_entry : DriverType × RegisteredDriverDefinition ℕ
points_entry = (bytes "shop.points", entry points)

points_run : Registry.register json (some []) (some points) ≡ ok (points_entry ∷ [])
unfolding Registry.register go_benefit.Core.Driver.validate_descriptor
    go_benefit.Core.Info.validate_driver_type go_benefit.Core.Identifier.validate_namespaced_value
    go_benefit.Prelude.list_beq go_benefit.Core.Operation.validate_capabilities
    go_benefit.Core.Config.validate_config_schema go_benefit.Text.Space.trim_space lookup
    go_benefit.Dict.insert
points_run = refl

coupon_then_points :
    Registry.register json (some with_driver) (some points) ≡ ok (coupon_entry ∷ points_entry ∷ [])
unfolding Registry.register go_benefit.Core.Driver.validate_descriptor
    go_benefit.Core.Info.validate_driver_type go_benefit.Core.Identifier.validate_namespaced_value
    go_benefit.Prelude.list_beq go_benefit.Core.Operation.validate_capabilities
    go_benefit.Core.Config.validate_config_schema go_benefit.Text.Space.trim_space lookup
    go_benefit.Dict.insert
coupon_then_points = refl

points_then_coupon :
    Registry.register json (some (points_entry ∷ [])) (some definition)
    ≡ ok (points_entry ∷ coupon_entry ∷ [])
unfolding Registry.register go_benefit.Core.Driver.validate_descriptor
    go_benefit.Core.Info.validate_driver_type go_benefit.Core.Identifier.validate_namespaced_value
    go_benefit.Prelude.list_beq go_benefit.Core.Operation.validate_capabilities
    go_benefit.Core.Config.validate_config_schema go_benefit.Text.Space.trim_space lookup
    go_benefit.Dict.insert
points_then_coupon = refl

coupon_first-Reach : State.Reach json (coupon_entry ∷ points_entry ∷ [])
coupon_first-Reach =
    State.Reach.next
      (State.Reach.next State.Reach.start (State.Step.registered (some definition) driver_run))
      (State.Step.registered (some points) coupon_then_points)

points_first-Reach : State.Reach json (points_entry ∷ coupon_entry ∷ [])
points_first-Reach =
    State.Reach.next
      (State.Reach.next State.Reach.start (State.Step.registered (some points) points_run))
      (State.Step.registered (some definition) points_then_coupon)

same_entries :
    (k : DriverType)
    → described (find (some (coupon_entry ∷ points_entry ∷ [])) k)
      ≡ described (find (some (points_entry ∷ coupon_entry ∷ [])) k)
unfolding find lookup
same_entries k = ground (arith, eq_iff (bytes "shop.coupon") k, eq_iff (bytes "shop.points") k)

same_descriptors :
    descriptors (some (coupon_entry ∷ points_entry ∷ []))
    ≡ descriptors (some (points_entry ∷ coupon_entry ∷ []))
same_descriptors = descriptors_unique json coupon_first-Reach points_first-Reach same_entries
