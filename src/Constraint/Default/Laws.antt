-- ===== src/Constraint/Default/Laws.antt =====
-- The registry of the package under Register and MustRegister.
use go_benefit.Prelude.{
  All, is_some, count, ◌≡◌, refl, inl, inr, true, Option, some, List, [], ◌∷◌, arith, Option-cases,
}
use go_benefit.Text.{text_eq}
use go_benefit.Errors.{ok}
use go_benefit.Errors.Laws.{Result-cases}
use go_benefit.Core.Constraint.{Constraint, ConstraintType}
use go_benefit.Constraint.Types.{Context, Input, Evaluator, EvaluatorValue}
use go_benefit.Constraint.Registry.{Registry, get}
use go_benefit.Constraint.Registry.State.{register-keeps}
use go_benefit.Constraint.Builtin.Register.{Platform}
use go_benefit.Constraint.Builtin.Register.Laws.{builtins, new_default_registry_lem}
use go_benefit.Core.Constraint.{decision_code_eq}
use go_benefit.Constraint.Registry.Report.{decisions, evaluate_all-eq-summary, is_unknown}
use go_benefit.Constraint.Registry.Decisions.{evaluate-unrecognized_iff}
use go_benefit.Constraint.Default.{
  default_registry, register_default, must_register, evaluate_default, Grows, initial, registered,
  required,
}

must_register-registers :
    (r : Option Registry) (typ : ConstraintType) (v : EvaluatorValue) (after : Registry)
    → must_register r typ v ≡ some after
    → register_default r typ v ≡ ok after
unfolding must_register
must_register-registers r typ v after h = elim (Result-cases (register_default r typ v)) [
  | inl (e, refused) ↦ absurd (ground arith)
  | inr (after, accepted) ↦ ground arith
]

register_default-keeps :
    (r : Option Registry) (typ k : ConstraintType) (v : EvaluatorValue) (f : Evaluator)
    (after : Registry)
    → register_default r typ v ≡ ok after
    → get r k ≡ some f
    → get (some after) k ≡ some f
unfolding register_default
register_default-keeps r typ k v f after h = register-keeps r typ k v f after h

-- Where applications only register evaluators in the registry of the package, by Register or by
-- MustRegister, each evaluator of NewDefaultRegistry stays under its type: none can be replaced.
pub Grows-builtins :
    {p : Platform} {r : Option Registry}
    → Grows p r
    → (k : ConstraintType) (f : Evaluator) → get (some (builtins p)) k ≡ some f
    → get r k ≡ some f
unfolding default_registry
Grows-builtins {p} {r} (initial e) k f h = ground (arith, new_default_registry_lem p)
Grows-builtins (registered typ v g e) k f h =
    register_default-keeps _ typ k v f _ e (Grows-builtins g k f h)
Grows-builtins (required typ v g e) k f h =
    register_default-keeps _ typ k v f _ (must_register-registers _ typ v _ e)
      (Grows-builtins g k f h)

unrecognized_free :
    (r : Option Registry) (ctx : Context) (input : Input) (cs : List Constraint)
    → All (λ c. is_some (get r c.constraint_type) ≡ true) cs
    → count is_unknown (decisions r ctx input cs) ≡ 0
unrecognized_free r ctx input [] h = refl
unrecognized_free r ctx input (c ∷ cs) (h, hs) =
    ground (arith, evaluate-unrecognized_iff r ctx c input, unrecognized_free r ctx input cs hs)

-- Where applications only register evaluators in the registry of the package constraint, by
-- Register or by MustRegister, Evaluate of the package counts no constraint as unrecognized in a
-- list of constraints of the three types that NewDefaultRegistry registers: TimeRange, Weekday and
-- RedemptionLimit. (The two amount types need an extractor, and are for the application to register.)
pub Grows-recognized :
    {p : Platform} {r : Option Registry}
    → Grows p r
    → (ctx : Context) (input : Input) (cs : List Constraint)
    → All (λ c. is_some (get (some (builtins p)) c.constraint_type) ≡ true) cs
    → (evaluate_default r ctx input cs).unrecognized ≡ 0
unfolding evaluate_default
Grows-recognized {p} {r} g ctx input cs h =
    rw (evaluate_all-eq-summary r ctx input cs) (unrecognized_free r ctx input cs (kept cs h))
  where
    kept :
        (cs : List Constraint)
        → All (λ c. is_some (get (some (builtins p)) c.constraint_type) ≡ true) cs
        → All (λ c. is_some (get r c.constraint_type) ≡ true) cs
    kept [] h = tt
    kept (c ∷ cs) (h, hs) = (
      elim (Option-cases (get (some (builtins p)) c.constraint_type)) [
        | inl missing ↦ absurd (ground arith)
        | inr (f, found) ↦ ground (arith, Grows-builtins g c.constraint_type f found)
      ],
      kept cs hs,
    )
