-- ===== src/Constraint/Builtin/Amount/Laws.antt =====
-- When a minimum or maximum amount is satisfied.
use go_benefit.Prelude.{
  ◌≡◌, ◌≢◌, ◌↔◌, ◌⊎◌, inl, inr, Bool, true, false, not, ◌&&◌, some, none, [], ◌∷◌, is_nil, arith,
  if◌then◌else◌, Bool-cases,
}
use go_benefit.Int64.{ℤ, pos, ◌≤ℤ◌, ltb_ℤ}
use go_benefit.Text.{Text, bytes}
use go_benefit.Core.Diagnostic.{Reason}
use go_benefit.Text.Fold.{to_upper, equal_fold, equal_fold_iff, to_upper_idem}
use go_benefit.Errors.{Error, Result, ok, err}
use go_benefit.Errors.Laws.{Result-cases}
use go_benefit.Core.Money.{Money, validate_money, validate_currency_code}
use go_benefit.Core.Money.Valid.{IsCurrency, validate_currency_code_iff}
use go_benefit.Core.Constraint.{
  Constraint, ConstraintDecisionCode, constraint_satisfied, unmarshal_params, decision,
}
use go_benefit.Constraint.Types.{Input}
use go_benefit.Constraint.Builtin.Amount.{
  AmountParams, AmountExtractor, params, check_amount_params, judge_amount, evaluate_with_extractor,
}

-- The amount is on the right side of the bound.
abbrev pub IsWithin : Bool → ℤ → ℤ → Type 0
IsWithin true bound actual = bound ≤ℤ actual
IsWithin false bound actual = actual ≤ℤ bound

pub record IsAmount (m : Money) : Type 0 where
  pub nonneg : pos 0 ≤ℤ m.amount
  pub currency : IsCurrency m.currency

abbrev pub bound_of : AmountParams → Money
bound_of p = record { amount = p.amount; currency = p.currency }

-- A well-formed bound, a well-formed amount in its currency, and the comparison.
pub record IsAccepted (minimum : Bool) (p : AmountParams) (actual : Money) : Type 0 where
  pub bound : IsAmount (bound_of p)
  pub amount : IsAmount actual
  pub same_currency : (p.currency ≡ []) ⊎ (to_upper actual.currency ≡ to_upper p.currency)
  pub within : IsWithin minimum p.amount actual.amount

IsAmount-cases : (m : Money) → IsAmount m ⊎ ¬ IsAmount m
IsAmount-cases m = elim (Result-cases (validate_currency_code m.currency)) [
  | inl (e, failed) ↦
      inr (λ h. ground (arith, (validate_currency_code_iff m.currency).1 h.currency))
  | inr (u, passed) ↦ elim (Bool-cases (ltb_ℤ m.amount (pos 0))) [
    | inl negative ↦ inr (λ h. ground (arith, h.nonneg))
    | inr nonneg ↦ inl (record {
      nonneg = ground arith;
      currency = (validate_currency_code_iff m.currency).0 passed;
    })
  ]
]

to_upper-eq-nil : (t : Text) → (is_nil (to_upper t) ≡ true) ↔ (t ≡ [])
unfolding to_upper
to_upper-eq-nil [] = ground arith
to_upper-eq-nil (c ∷ t) = ground arith

-- The currency test on the upper-case currency of the bound.
currency_iff :
    (actual required : Text)
    → ((not (is_nil (to_upper required)) && not (equal_fold actual (to_upper required))) ≡ false)
      ↔ ((required ≡ []) ⊎ (to_upper actual ≡ to_upper required))
currency_iff actual required = ground (
  arith,
  to_upper-eq-nil required,
  equal_fold_iff actual (to_upper required),
  to_upper_idem required,
)

check_amount_params_iff :
    (p q : AmountParams)
    → (check_amount_params p ≡ params q)
      ↔ (IsAmount (bound_of p) × (q ≡ record p { currency = to_upper p.currency }))
unfolding check_amount_params validate_money
check_amount_params_iff p q = ground (arith, validate_currency_code_iff p.currency)

judge_amount_iff :
    (minimum : Bool) (p : AmountParams) (actual : Money)
    → IsAmount (bound_of p)
    → (judge_amount minimum (record p { currency = to_upper p.currency }) actual
        ≡ ok constraint_satisfied)
      ↔ IsAccepted minimum p actual
unfolding judge_amount validate_money constraint_satisfied
judge_amount_iff true p actual bound =
    ground
      (arith, validate_currency_code_iff actual.currency, currency_iff actual.currency p.currency)
judge_amount_iff false p actual bound =
    ground
      (arith, validate_currency_code_iff actual.currency, currency_iff actual.currency p.currency)

-- The parameters and the amount with which an evaluation is satisfied.
pub record Satisfies (decode : Text → Result AmountParams) (extract : AmountExtractor)
    (minimum : Bool) (c : Constraint) (input : Input) : Type 0 where
  pub p : AmountParams
  pub actual : Money
  pub decoded : unmarshal_params (some decode) c ≡ ok p
  pub extracted : extract input ≡ ok (actual, true)
  pub accepted : IsAccepted minimum p actual

module _ (decode : Text → Result AmountParams) (extract : AmountExtractor) (minimum : Bool)
    (c : Constraint) (input : Input) where
  evaluate_rejected :
      (p : AmountParams)
      → unmarshal_params (some decode) c ≡ ok p
      → ¬ IsAmount (bound_of p)
      → evaluate_with_extractor decode extract minimum c input ≢ ok constraint_satisfied
  unfolding evaluate_with_extractor validate_money constraint_satisfied
  evaluate_rejected p decoded bad h = ground (arith, validate_currency_code_iff p.currency)

  evaluate_judged :
      (p : AmountParams) (actual : Money) (found : Bool)
      → unmarshal_params (some decode) c ≡ ok p
      → IsAmount (bound_of p)
      → extract input ≡ ok (actual, found)
      → evaluate_with_extractor decode extract minimum c input ≡ (
          if found
          then judge_amount minimum (record p { currency = to_upper p.currency }) actual
          else ok (
              decision ConstraintDecisionCode.unsatisfied
                (Reason.text (bytes "operation amount is unavailable"))
                none))
  unfolding evaluate_with_extractor validate_money
  evaluate_judged p actual found decoded good extracted =
      ground (arith, validate_currency_code_iff p.currency)

  evaluate_undecoded :
      (e : Error)
      → unmarshal_params (some decode) c ≡ err e
      → evaluate_with_extractor decode extract minimum c input ≢ ok constraint_satisfied
  unfolding evaluate_with_extractor constraint_satisfied
  evaluate_undecoded e failed h = ground arith

  evaluate_unextracted :
      (e : Error)
      → extract input ≡ err e
      → evaluate_with_extractor decode extract minimum c input ≢ ok constraint_satisfied
  unfolding evaluate_with_extractor constraint_satisfied
  evaluate_unextracted e failed h = ground arith

  satisfied_by :
      (p : AmountParams) (actual : Money) (found : Bool)
      → unmarshal_params (some decode) c ≡ ok p
      → IsAmount (bound_of p)
      → extract input ≡ ok (actual, found)
      → evaluate_with_extractor decode extract minimum c input ≡ ok constraint_satisfied
      → Satisfies decode extract minimum c input
  unfolding constraint_satisfied decision
  satisfied_by p actual true decoded good extracted h = record {
    p = p;
    actual = actual;
    decoded = decoded;
    extracted = extracted;
    accepted =
        (judge_amount_iff minimum p actual good).0
          (rw (evaluate_judged p actual true decoded good extracted) at h);
  }
  satisfied_by p actual false decoded good extracted h =
      absurd (ground (arith, evaluate_judged p actual false decoded good extracted))

  satisfied_from :
      evaluate_with_extractor decode extract minimum c input ≡ ok constraint_satisfied
      → Satisfies decode extract minimum c input
  satisfied_from h = elim (Result-cases (unmarshal_params (some decode) c)) [
    | inl (e, failed) ↦ absurd (evaluate_undecoded e failed h)
    | inr (p, decoded) ↦ elim (IsAmount-cases (bound_of p)) [
      | inr bad ↦ absurd (evaluate_rejected p decoded bad h)
      | inl good ↦ elim (Result-cases (extract input)) [
        | inl (e, failed) ↦ absurd (evaluate_unextracted e failed h)
        | inr ((actual, found), extracted) ↦ satisfied_by p actual found decoded good extracted h
      ]
    ]
  ]

  -- What is satisfied once the context is found live and the extractor set.
  pub evaluate_with_extractor_iff :
      (evaluate_with_extractor decode extract minimum c input ≡ ok constraint_satisfied)
      ↔ Satisfies decode extract minimum c input
  evaluate_with_extractor_iff = (
    satisfied_from,
    λ s.
        rw (evaluate_judged s.p s.actual true s.decoded s.accepted.bound s.extracted)
          ((judge_amount_iff minimum s.p s.actual s.accepted.bound).1 s.accepted),
  )
