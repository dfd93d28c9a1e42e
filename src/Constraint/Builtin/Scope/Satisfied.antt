-- ===== src/Constraint/Builtin/Scope/Satisfied.antt =====
-- When the evaluator of scopes is satisfied.
use go_benefit.Prelude.{
  ◌≡◌, refl, sym, ◌∙◌, ◌≢◌, ◌↔◌, inl, inr, false, none, some, List, [], ◌∷◌, has_not_nil, is_nil,
  arith, Option-cases,
}
use go_benefit.Text.{Text, text_eq}
use go_benefit.Errors.{Error, Result, ok, err}
use go_benefit.Errors.Laws.{Result-cases}
use go_benefit.Core.Constraint.{
  Constraint, ConstraintDecision, ConstraintDecisionCode, unmarshal_params,
}
use go_benefit.Constraint.Types.{Context, Input}
use go_benefit.Constraint.Builtin.Scope.{
  ScopeMatch, ScopeParams, ScopeValuesExtractor, allowed_values, scope_decision,
  ScopeConstraintEvaluator, evaluate_scope,
}
use go_benefit.Constraint.Builtin.Scope.Laws.{
  InScope, has-allowed_values, AnyInScope, Matches, match_scope-Matches_iff,
}

-- Where a scope matches, the allow list has an entry that is not blank.
allowed_not_nil :
    (entries : List Text) (v : Text) → InScope entries v → is_nil (allowed_values entries) ≡ false
allowed_not_nil entries v (full, listed) =
    has_not_nil (allowed_values entries) v (has-allowed_values entries v full ∙ listed)

any_allowed :
    (entries values : List Text)
    → AnyInScope entries values
    → is_nil (allowed_values entries) ≡ false
any_allowed entries [] h = absurd h
any_allowed entries (v ∷ values) (inl here) = allowed_not_nil entries v here
any_allowed entries (v ∷ values) (inr later) = any_allowed entries values later

Matches-allowed :
    (match : ScopeMatch) (entries values : List Text)
    → Matches match entries values
    → is_nil (allowed_values entries) ≡ false
Matches-allowed ScopeMatch.all entries [] (full, h) = absurd (full refl)
Matches-allowed ScopeMatch.all entries (v ∷ values) (full, (h, hs)) = allowed_not_nil entries v h
Matches-allowed ScopeMatch.any entries values h = any_allowed entries values h
Matches-allowed ScopeMatch.empty entries values h = any_allowed entries values h
Matches-allowed (ScopeMatch.other t) entries values h = absurd h

entries_not_nil :
    (entries : List Text) → is_nil (allowed_values entries) ≡ false → is_nil entries ≡ false
unfolding allowed_values
entries_not_nil [] h = cc
entries_not_nil (x ∷ entries) h = refl

-- The call is live, the extractor is set, the parameters decode to a known mode, and the values that
-- are extracted match in that mode.
pub record IsInScope (decode : Text → Result ScopeParams) (e : ScopeConstraintEvaluator)
    (ctx : Context) (c : Constraint) (input : Input) : Type 0 where
  pub live : ctx.ctx_err ≡ none
  pub extractor : ScopeValuesExtractor
  pub set : e.extract ≡ some extractor
  pub params : ScopeParams
  pub given : is_nil c.params ≡ false
  pub decoded : decode c.params ≡ ok params
  pub values : List Text
  pub extracted : extractor input ≡ ok values
  pub matched : Matches params.match params.values values

-- The decision where the values are extracted.
decided :
    (f : ScopeValuesExtractor) (p : ScopeParams) (input : Input) (values : List Text)
    (d : ConstraintDecision)
    → f input ≡ ok values
    → scope_decision f p input ≡ ok d
    → (d.code ≡ ConstraintDecisionCode.satisfied) ↔ Matches p.match p.values values
unfolding scope_decision
decided f p input values d found h = (
  λ k. (match_scope-Matches_iff p.match values p.values).0 (ground arith, ground arith),
  λ m.
      let known = (match_scope-Matches_iff p.match values p.values).1 m in
      let allowed = Matches-allowed p.match p.values values m in
      let entries = entries_not_nil p.values allowed in ground (arith, known.0, known.1),
)

-- An error is that of the extractor.
undecided :
    (f : ScopeValuesExtractor) (p : ScopeParams) (input : Input) (values : List Text) (e : Error)
    → f input ≡ ok values
    → scope_decision f p input ≢ err e
unfolding scope_decision
undecided f p input values e found h = ground arith

-- Where the extractor fails, no decision is satisfied.
unextracted :
    (f : ScopeValuesExtractor) (p : ScopeParams) (input : Input) (e : Error)
    (d : ConstraintDecision)
    → f input ≡ err e
    → scope_decision f p input ≡ ok d
    → d.code ≢ ConstraintDecisionCode.satisfied
unfolding scope_decision
unextracted f p input e d failed h k = ground arith

scoped :
    (decode : Text → Result ScopeParams) (e : ScopeConstraintEvaluator) (ctx : Context)
    (c : Constraint) (input : Input) (f : ScopeValuesExtractor) (p : ScopeParams)
    → ctx.ctx_err ≡ none
    → e.extract ≡ some f
    → is_nil c.params ≡ false
    → decode c.params ≡ ok p
    → evaluate_scope decode e ctx c input ≡ scope_decision f p input
unfolding evaluate_scope unmarshal_params
scoped decode e ctx c input f p live set given decoded = ground arith

-- What a satisfied decision needs before the values are extracted.
record IsDecoded (decode : Text → Result ScopeParams) (e : ScopeConstraintEvaluator) (ctx : Context)
    (c : Constraint) : Type 0 where
  live : ctx.ctx_err ≡ none
  extractor : ScopeValuesExtractor
  set : e.extract ≡ some extractor
  params : ScopeParams
  given : is_nil c.params ≡ false
  decoded : decode c.params ≡ ok params

evaluate_scope-IsDecoded :
    (decode : Text → Result ScopeParams) (e : ScopeConstraintEvaluator) (ctx : Context)
    (c : Constraint) (input : Input) (d : ConstraintDecision)
    → evaluate_scope decode e ctx c input ≡ ok d
    → d.code ≡ ConstraintDecisionCode.satisfied
    → IsDecoded decode e ctx c
unfolding evaluate_scope unmarshal_params
evaluate_scope-IsDecoded decode e ctx c input d h k = elim (Option-cases ctx.ctx_err) [
  | inr (cause, done) ↦ absurd (ground arith)
  | inl live ↦ elim (Option-cases e.extract) [
    | inl unset ↦ absurd (ground arith)
    | inr (f, set) ↦ elim (Result-cases (decode c.params)) [
      | inl (cause, failed) ↦ absurd (ground arith)
      | inr (p, decoded) ↦ record {
        live = live;
        extractor = f;
        set = set;
        params = p;
        given = ground arith;
        decoded = decoded;
      }
    ]
  ]
]

-- The evaluator of scopes returns a satisfied decision exactly where the context is live, the extractor
-- is set, the parameters decode to the mode all, any or the empty one, and the extractor returns values
-- of which, in mode all, there is one and each is in scope, and else some one is in scope.
pub evaluate_scope-satisfied_iff :
    (decode : Text → Result ScopeParams) (e : ScopeConstraintEvaluator) (ctx : Context)
    (c : Constraint) (input : Input)
    → ((d : ConstraintDecision) × (evaluate_scope decode e ctx c input ≡ ok d)
        × (d.code ≡ ConstraintDecisionCode.satisfied))
      ↔ IsInScope decode e ctx c input
evaluate_scope-satisfied_iff decode e ctx c input = (
  λ (d, h, k).
      let s = evaluate_scope-IsDecoded decode e ctx c input d h k in
      let run : scope_decision s.extractor s.params input ≡ ok d =
        sym (scoped decode e ctx c input s.extractor s.params s.live s.set s.given s.decoded) ∙ h in
      elim (Result-cases (s.extractor input)) [
        | inl (cause, failed) ↦ absurd (unextracted s.extractor s.params input cause d failed run k)
        | inr (values, found) ↦ record {
          live = s.live;
          extractor = s.extractor;
          set = s.set;
          params = s.params;
          given = s.given;
          decoded = s.decoded;
          values = values;
          extracted = found;
          matched = (decided s.extractor s.params input values d found run).0 k;
        }
      ],
  λ s.
      let run = scoped decode e ctx c input s.extractor s.params s.live s.set s.given s.decoded in
      elim (Result-cases (scope_decision s.extractor s.params input)) [
        | inl (cause, failed) ↦
            absurd (undecided s.extractor s.params input s.values cause s.extracted failed)
        | inr (d, found) ↦ (
          d,
          run ∙ found,
          (decided s.extractor s.params input s.values d s.extracted found).1 s.matched,
        )
      ],
)
