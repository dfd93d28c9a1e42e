-- ===== src/Constraint/Builtin/Register/Laws.antt =====
-- The default registry.
use go_benefit.Prelude.{◌≡◌, refl, some, [], ◌∷◌, list_beq}
use go_benefit.Text.{text_eq}
use go_benefit.Dict.{lookup, insert}
use go_benefit.Errors.{ok}
use go_benefit.Core.Constraint.{validate_constraint_type}
use go_benefit.Core.Identifier.{validate_namespaced_value}
use go_benefit.Constraint.Types.{time_range_type, weekday_type, redemption_limit_type}
use go_benefit.Constraint.Registry.{Registry, register}
use go_benefit.Constraint.Builtin.Time.{evaluate_time_range, evaluate_weekday}
use go_benefit.Constraint.Builtin.Usage.{evaluate_redemption_limit}
use go_benefit.Constraint.Builtin.Register.{Platform, new_default_registry}

-- The three built-in evaluators under their types.
abbrev pub builtins : Platform → Registry
builtins p =
    (time_range_type, evaluate_time_range p.clock p.decode_time_range)
    ∷ (weekday_type, evaluate_weekday p.clock p.zones p.decode_weekday)
    ∷ (redemption_limit_type, evaluate_redemption_limit p.decode_limit)
    ∷ []

-- NewDefaultRegistry does not panic, and its registry holds the three built-in evaluators that need
-- no extractor under their types, and nothing else.
pub new_default_registry_lem : (p : Platform) → new_default_registry p ≡ ok (some (builtins p))
unfolding new_default_registry register validate_constraint_type validate_namespaced_value lookup
    insert list_beq
new_default_registry_lem p = refl
