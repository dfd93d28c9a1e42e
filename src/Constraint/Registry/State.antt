-- ===== src/Constraint/Registry/State.antt =====
-- Registration as steps on the map: what each method does to a later Get, and what every registry
-- that the methods build satisfies.
use go_benefit.Prelude.{
  ◌≡◌, refl, ◌≢◌, ◌↔◌, inl, inr, true, Option, some, none, arith, if◌then◌else◌, Option-cases, ◌==◌,
  eq_iff, is_some,
}
use go_benefit.Text.{text_eq}
use go_benefit.Dict.{lookup, insert, delete, lookup-insert, lookup-delete}
use go_benefit.Dict.Distinct.{HasDistinctKeys, insert-HasDistinctKeys, delete-HasDistinctKeys}
use mathlib.Core.Path.{subst}
use go_benefit.Errors.{ok}
use go_benefit.Core.Identifier.{is_namespaced, validate_namespaced_value}
use go_benefit.Core.Constraint.{ConstraintType, validate_constraint_type}
use go_benefit.Constraint.Types.{Evaluator, EvaluatorValue, live}
use go_benefit.Constraint.Registry.{Registry, new_registry, register, unregister, get}

-- What a successful registration needs, and what it leaves.
pub record Registers (r : Option Registry) (typ : ConstraintType) (v : EvaluatorValue)
    (after : Registry) : Type 0 where
  pub before : Registry
  pub f : Evaluator
  pub not_nil : r ≡ some before
  pub namespaced : is_namespaced typ ≡ true
  pub usable : live v ≡ some f
  pub fresh : lookup typ before ≡ none
  pub result : after ≡ insert typ f before
  pub stored : (k : ConstraintType) → get (some after) k ≡ (if typ == k then some f else get r k)

register_by_value :
    (before : Registry) (typ : ConstraintType) (v : EvaluatorValue) (f : Evaluator)
    (after : Registry)
    → live v ≡ some f
    → register (some before) typ v ≡ ok after
    → (is_namespaced typ ≡ true) × (lookup typ before ≡ none) × (after ≡ insert typ f before)
unfolding register validate_constraint_type validate_namespaced_value
register_by_value before typ v f after e h = ground arith

register-none :
    (before : Registry) (typ : ConstraintType) (v : EvaluatorValue) (after : Registry)
    → live v ≡ none
    → register (some before) typ v ≢ ok after
unfolding register validate_constraint_type validate_namespaced_value
register-none before typ v after e h = ground arith

register-Registers :
    (r : Option Registry) (typ : ConstraintType) (v : EvaluatorValue) (after : Registry)
    → register r typ v ≡ ok after
    → Registers r typ v after
unfolding get
register-Registers none typ v after h = absurd (unfold register in cc)
register-Registers (some before) typ v after h = elim (Option-cases (live v)) [
  | inl unusable ↦ absurd (register-none before typ v after unusable h)
  | inr (f, e) ↦
      let (namespaced, fresh, stored) = register_by_value before typ v f after e h in
      record {
        before = before;
        f = f;
        not_nil = refl;
        namespaced = namespaced;
        usable = e;
        fresh = fresh;
        result = stored;
        stored = λ k. rw (stored, lookup-insert typ k f before);
      }
]

Registers-register :
    (r : Option Registry) (typ : ConstraintType) (v : EvaluatorValue) (after : Registry)
    → Registers r typ v after
    → register r typ v ≡ ok after
unfolding register validate_constraint_type validate_namespaced_value
Registers-register none typ v after h = absurd (ground (arith, h.not_nil))
Registers-register (some m) typ v after h =
    ground (arith, h.not_nil, h.namespaced, h.usable, h.fresh, h.result)

-- Register succeeds exactly on a registry that is not nil, for a namespaced type that is not
-- registered and an evaluator that is not nil. Then Get finds the evaluator under that type and
-- answers as before under every other type.
pub register-Registers_iff :
    (r : Option Registry) (typ : ConstraintType) (v : EvaluatorValue) (after : Registry)
    → (register r typ v ≡ ok after) ↔ Registers r typ v after
register-Registers_iff r typ v after =
    (register-Registers r typ v after, Registers-register r typ v after)

-- What Get finds, it finds after a later registration.
pub register-keeps :
    (r : Option Registry) (typ k : ConstraintType) (v : EvaluatorValue) (f : Evaluator)
    (after : Registry)
    → register r typ v ≡ ok after
    → get r k ≡ some f
    → get (some after) k ≡ some f
unfolding get
register-keeps r typ k v f after h found =
    let s = (register-Registers_iff r typ v after).0 h in
    ground (arith, s.stored k, eq_iff typ k, s.fresh, s.not_nil)

-- Unregister reports whether the type was registered; afterwards Get finds nothing under it and
-- answers as before under every other type.
pub unregister_lem :
    (r : Option Registry) (typ k : ConstraintType)
    → ((unregister r typ).1 ≡ is_some (get r typ))
      × (get (unregister r typ).0 k ≡ (if typ == k then none else get r k))
unfolding unregister get
unregister_lem none typ k = ground arith
unregister_lem (some m) typ k = ground (arith, lookup-delete typ k m)

-- The calls that change a registry, in any order and by any number of goroutines: each is atomic.
pub data Step (r : Registry) : Registry → Type 0 where
  registered :
      {after : Registry} (typ : ConstraintType) (v : EvaluatorValue)
      → register (some r) typ v ≡ ok after
      → Step r after
  removed :
      {after : Registry} (typ : ConstraintType)
      → (unregister (some r) typ).0 ≡ some after
      → Step r after

pub data Reach : Registry → Type 0 where
  start : Reach new_registry
  next : {r after : Registry} → Reach r → Step r after → Reach after

-- Every type that is found is namespaced.
abbrev pub HasNames : Registry → Type 0
HasNames r = (k : ConstraintType) (f : Evaluator) → get (some r) k ≡ some f → is_namespaced k ≡ true

-- A registry whose keys are namespaced and distinct.
pub record IsSound (r : Registry) : Type 0 where
  pub names : HasNames r
  pub distinct : HasDistinctKeys r

insert-HasNames :
    (r : Registry) (typ : ConstraintType) (f : Evaluator)
    → is_namespaced typ ≡ true
    → HasNames r
    → HasNames (insert typ f r)
unfolding get
insert-HasNames r typ f named h k g e = ground (arith, lookup-insert typ k f r, eq_iff typ k, h k g)

Step-IsSound : {r after : Registry} → Step r after → IsSound r → IsSound after
unfolding unregister get
Step-IsSound {r} (registered typ v e) s =
    let k = register-Registers (some r) typ v _ e in
    let (named, fresh, stored) = register_by_value r typ v k.f _ k.usable e in
    rw stored (record {
      names = insert-HasNames r typ k.f named s.names;
      distinct = insert-HasDistinctKeys typ k.f r s.distinct;
    })
Step-IsSound {r} {after} (removed typ e) s =
    let same : delete typ r ≡ after = ground arith in
    subst IsSound same (record {
      names = λ k f found. ground (arith, lookup-delete typ k r, s.names k f);
      distinct = delete-HasDistinctKeys typ r s.distinct;
    })

-- In every registry that calls of Register and Unregister build from NewRegistry, in any order, the
-- registered types are namespaced and each is held once.
pub Reach-IsSound : {r : Registry} → Reach r → IsSound r
unfolding get lookup
Reach-IsSound start = record { names = λ k f found. absurd (cc); distinct = tt }
Reach-IsSound (next reach step) = Step-IsSound step (Reach-IsSound reach)
