-- ===== src/Constraint/Builtin/Scope.antt =====
-- constraint/builtin_scope.go. `decode` is json.Unmarshal at the parameters of the evaluator.
pub mod Laws
pub mod Satisfied
use go_benefit.Prelude.{
  has, Bool, true, false, not, ◌&&◌, ◌||◌, some, none, Option, List, [], ◌∷◌, is_nil, if◌then◌else◌,
  ◌==◌,
}
use go_benefit.Text.{Text, bytes, text_eq}
use go_benefit.Text.Space.{trim_space}
use go_benefit.Errors.{Result, ok, err, errorf, sentinel, err_invalid_evaluator}
use go_benefit.Core.Diagnostic.{Reason, Value}
use go_benefit.Core.Constraint.{Constraint, ConstraintDecision, unmarshal_params}
use go_benefit.Constraint.Types.{Context, Input, Evaluator}
use go_benefit.Constraint.Builtin.{invalid_constraint, constraint_decision}

pub data ScopeMatch : Type 0 where
  empty any all : ScopeMatch
  other : Text → ScopeMatch

pub record ScopeParams : Type 0 where
  pub values : List Text
  pub match : ScopeMatch

abbrev pub ScopeValuesExtractor : Type 0
ScopeValuesExtractor = Input → Result (List Text)

-- The map of allowed values, as the list of its keys.
unfoldable pub allowed_values : List Text → List Text
allowed_values [] = []
allowed_values (value ∷ values) =
    let rest = allowed_values values in
    if is_nil (trim_space value) then rest else trim_space value ∷ rest

unfoldable pub match_all : List Text → List Text → Bool
match_all [] allowed = true
match_all (value ∷ values) allowed =
    has allowed value && not (is_nil value) && match_all values allowed

unfoldable pub match_any : List Text → List Text → Bool
match_any [] allowed = false
match_any (value ∷ values) allowed =
    has allowed value && not (is_nil value) || match_any values allowed

unfoldable pub match_scope : List Text → List Text → ScopeMatch → Bool
unfolding match_all match_any
match_scope [] allowed match = false
match_scope (value ∷ values) allowed ScopeMatch.all = match_all (value ∷ values) allowed
match_scope (value ∷ values) allowed _ = match_any (value ∷ values) allowed

abbrev pub match_text : ScopeMatch → Text
match_text ScopeMatch.empty = []
match_text ScopeMatch.any = bytes "any"
match_text ScopeMatch.all = bytes "all"
match_text (ScopeMatch.other t) = t

-- `if params.Match == "" { params.Match = ScopeMatchAny }`
abbrev pub default_match : ScopeMatch → ScopeMatch
default_match ScopeMatch.empty = ScopeMatch.any
default_match match = match

abbrev pub is_known_match : ScopeMatch → Bool
is_known_match ScopeMatch.any = true
is_known_match ScopeMatch.all = true
is_known_match _ = false

unfoldable pub scope_decision :
    ScopeValuesExtractor → ScopeParams → Input → Result ConstraintDecision
unfolding invalid_constraint constraint_decision match_scope allowed_values
scope_decision extract p input =
    if is_nil p.values
    then ok (invalid_constraint (Reason.text (bytes "scope values must not be empty")))
    else if not (is_known_match (default_match p.match))
    then ok (invalid_constraint (Reason.sprintf "unsupported scope match %q"))
    else if is_nil (allowed_values p.values)
    then ok (invalid_constraint (Reason.text (bytes "scope values must contain a non-empty value")))
    else elim (extract input) [
      | err e ↦ err e
      | ok values ↦ ok (
          constraint_decision (match_scope values (allowed_values p.values) (default_match p.match))
            (Reason.text (bytes "operation is outside the allowed scope"))
            (some (
              (bytes "match", Value.text (match_text (default_match p.match)))
              ∷ (bytes "values", Value.texts values)
              ∷ [])))
    ]

-- `extract` is `none` where it is nil.
pub record ScopeConstraintEvaluator : Type 0 where
  pub extract : Option ScopeValuesExtractor

abbrev pub new_scope_evaluator : Option ScopeValuesExtractor → ScopeConstraintEvaluator
new_scope_evaluator extract = record { extract = extract }

unfoldable pub evaluate_scope : (Text → Result ScopeParams) → ScopeConstraintEvaluator → Evaluator
unfolding scope_decision
evaluate_scope decode e ctx constraint input = elim ctx.ctx_err [
  | some cancelled ↦ err cancelled
  | none ↦ elim e.extract [
    | none ↦ err (errorf "%w: scope values extractor is nil" (sentinel err_invalid_evaluator))
    | some f ↦ elim (unmarshal_params (some decode) constraint) [
      | err e ↦ ok (invalid_constraint (Reason.error_text e))
      | ok p ↦ scope_decision f p input
    ]
  ]
]
