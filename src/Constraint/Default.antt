-- ===== src/Constraint/Default.antt =====
-- The registry of the package constraint, and its helpers. The variable holds a *Registry, which an
-- application may set to nil; a panic is `none`.
pub mod Laws
use go_benefit.Prelude.{
  ◌≡◌, refl, inl, inr, true, false, Option, none, some, List, [], ◌∷◌, arith, Bool-cases,
  Option-cases, ◌==◌, eq_iff, if◌then◌else◌,
}
use go_benefit.Text.{text_eq}
use go_benefit.Dict.{lookup}
use go_benefit.Errors.{Result, ok, err}
use go_benefit.Errors.Laws.{Result-cases}
use go_benefit.Core.Constraint.{Constraint, ConstraintType, ConstraintReport}
use go_benefit.Constraint.Types.{Context, Input, Evaluator, EvaluatorValue}
use go_benefit.Constraint.Registry.{Registry, register, get, evaluate_all}
use go_benefit.Constraint.Registry.State.{Registers, register-Registers_iff}
use go_benefit.Constraint.Builtin.Register.{Platform, new_default_registry}
use go_benefit.Constraint.Builtin.Register.Laws.{builtins, new_default_registry_lem}

-- What the variable holds at first, where NewDefaultRegistry does not panic.
unfoldable pub default_registry : Platform → Option (Option Registry)
unfolding new_default_registry
default_registry p = elim (new_default_registry p) [ err e ↦ none | ok r ↦ some r ]

unfoldable pub register_default :
    Option Registry → ConstraintType → EvaluatorValue → Result Registry
unfolding register
register_default default typ evaluator = register default typ evaluator

unfoldable pub must_register : Option Registry → ConstraintType → EvaluatorValue → Option Registry
unfolding register_default
must_register default typ evaluator = elim (register_default default typ evaluator) [
  | err e ↦ none
  | ok after ↦ some after
]

unfoldable pub evaluate_default :
    Option Registry → Context → Input → List Constraint → ConstraintReport
unfolding evaluate_all
evaluate_default default ctx input constraints = evaluate_all default ctx input constraints

-- What the calls of Register and MustRegister make of the registry that the package starts with.
pub data Grows (p : Platform) : Option Registry → Type 0 where
  initial : {r : Option Registry} → default_registry p ≡ some r → Grows p r
  registered :
      {r : Option Registry} {after : Registry} (typ : ConstraintType) (v : EvaluatorValue)
      → Grows p r
      → register_default r typ v ≡ ok after
      → Grows p (some after)
  required :
      {r : Option Registry} {after : Registry} (typ : ConstraintType) (v : EvaluatorValue)
      → Grows p r
      → must_register r typ v ≡ some after
      → Grows p (some after)
