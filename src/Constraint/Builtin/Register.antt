-- ===== src/Constraint/Builtin/Register.antt =====
-- RegisterBuiltins of constraint/builtin.go and NewDefaultRegistry of constraint/registry.go.
pub mod Laws
use go_benefit.Prelude.{List, [], ◌∷◌, some, Option}
use go_benefit.Text.{Text}
use go_benefit.Time.{Time}
use go_benefit.Errors.{Result, ok, err, ◌>>=◌}
use go_benefit.Core.Constraint.{ConstraintType}
use go_benefit.Constraint.Types.{
  EvaluatorValue, Evaluator, time_range_type, weekday_type, redemption_limit_type,
}
use go_benefit.Constraint.Registry.{Registry, new_registry, register}
use go_benefit.Constraint.Builtin.Time.{
  TimeRangeParams, WeekdayParams, Zones, evaluate_time_range, evaluate_weekday,
}
use go_benefit.Constraint.Builtin.Usage.{RedemptionLimitParams, evaluate_redemption_limit}

-- What the built-in evaluators take from outside: the clock, the time zones and the JSON decoder.
pub record Platform : Type 0 where
  pub clock : Time
  pub zones : Zones
  pub decode_time_range : Text → Result TimeRangeParams
  pub decode_weekday : Text → Result WeekdayParams
  pub decode_limit : Text → Result RedemptionLimitParams

unfoldable pub registrations : Platform → List (ConstraintType × EvaluatorValue)
registrations p =
    (time_range_type, EvaluatorValue.func (some (evaluate_time_range p.clock p.decode_time_range)))
    ∷ (weekday_type, EvaluatorValue.func (some (evaluate_weekday p.clock p.zones p.decode_weekday)))
    ∷ (redemption_limit_type, EvaluatorValue.func (some (evaluate_redemption_limit p.decode_limit)))
    ∷ []

-- The loop of RegisterBuiltins.
unfoldable pub register_each :
    List (ConstraintType × EvaluatorValue) → Option Registry → Result (Option Registry)
register_each [] r = ok r
register_each ((typ, evaluator) ∷ rest) r = do
  r' ← register r typ evaluator
  register_each rest (some r')

unfoldable pub register_builtins : Platform → Option Registry → Result (Option Registry)
unfolding registrations register_each
register_builtins p r = register_each (registrations p) r

-- An error stands for the panic.
unfoldable pub new_default_registry : Platform → Result (Option Registry)
unfolding register_builtins
new_default_registry p = register_builtins p (some new_registry)
