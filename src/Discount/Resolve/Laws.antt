-- ===== src/Discount/Resolve/Laws.antt =====
-- What Resolve accepts, and that it confirms what the calculations produce.
use go_benefit.Prelude.{
  ◌≡◌, ◌≢◌, ◌↔◌, ap, sym, ◌∙◌, inl, inr, false, some, none, Option-cases, [], ◌∷◌, arith, is_nil,
  not, ◌&&◌,
}
use go_benefit.Int64.{pos, ◌≤ℤ◌, IsInt64, beq_ℤ, beq_ℤ_iff}
use go_benefit.Text.{Text}
use go_benefit.Text.Fold.{to_upper, equal_fold, equal_fold_iff}
use go_benefit.Errors.{ok}
use go_benefit.Core.Money.{Money, DiscountEffect, validate_money}
use go_benefit.Core.Money.Valid.{
  IsCurrency, IsConsistent, validate_currency_code_iff, validate_discount_effect_iff,
}
use go_benefit.Core.Outcome.{BenefitOutcome}
use go_benefit.Discount.Calculate.Results.{Inherits}
use go_benefit.Discount.Resolve.{resolve}

abbrev pub confirmed : DiscountEffect → BenefitOutcome
confirmed e = record { discount = some e }

-- The amounts of an effect are int64 values.
pub record InRange (e : DiscountEffect) : Type 0 where
  pub original : IsInt64 e.original_amount
  pub discount : IsInt64 e.discount_amount
  pub payable : IsInt64 e.payable_amount

-- What Resolve requires of the outcome's effect, and what it returns.
pub record Confirms (original : Money) (e r : DiscountEffect) : Type 0 where
  pub trusted : IsCurrency original.currency
  pub nonneg : pos 0 ≤ℤ original.amount
  pub consistent : IsConsistent e
  pub same_amount : e.original_amount ≡ original.amount
  pub same_currency : Inherits e.currency original.currency
  pub result : r ≡ record e { currency = to_upper original.currency }

agrees_iff : (c k : Text) → ((not (is_nil c) && not (equal_fold c k)) ≡ false) ↔ Inherits c k
agrees_iff [] k = ground arith
agrees_iff (x ∷ c) k = ground (arith, equal_fold_iff (x ∷ c) k)

-- What Resolve makes of an outcome with an effect.
pub resolve-confirmed_iff :
    (original : Money) (e r : DiscountEffect)
    → InRange e
    → (resolve original (confirmed e) ≡ ok r) ↔ Confirms original e r
unfolding resolve validate_money beq_ℤ
resolve-confirmed_iff o e r range = ground (
  arith,
  validate_currency_code_iff o.currency,
  validate_discount_effect_iff e range.original range.discount range.payable,
  agrees_iff e.currency o.currency,
  beq_ℤ_iff e.original_amount o.amount,
)

resolve-unconfirmed :
    (original : Money) (outcome : BenefitOutcome) (r : DiscountEffect)
    → outcome.discount ≡ none
    → resolve original outcome ≢ ok r
unfolding resolve
resolve-unconfirmed o outcome r missing h = ground arith

-- For an outcome whose effect, if it has one, has amounts in the range of int64, Resolve succeeds
-- exactly when the trusted amount is zero or more in a well-formed currency and the outcome has an
-- effect, which is consistent, of that original amount, and in that currency up to case or in none.
-- It returns that effect with the trusted currency in upper case.
pub resolve-eq-ok_iff :
    (original : Money) (outcome : BenefitOutcome) (r : DiscountEffect)
    → ((e : DiscountEffect) → outcome.discount ≡ some e → InRange e)
    → (resolve original outcome ≡ ok r)
      ↔ ((e : DiscountEffect) × (outcome.discount ≡ some e) × Confirms original e r)
resolve-eq-ok_iff o outcome r range = elim (Option-cases outcome.discount) [
  | inl missing ↦ (
    λ h. absurd (resolve-unconfirmed o outcome r missing h),
    λ (e, present, k). absurd (ground arith),
  )
  | inr (e, present) ↦
      let at_effect : resolve o outcome ≡ resolve o (confirmed e) =
        ap (λ d. resolve o (record { discount = d })) present in
      (
        λ h. (e, present, (resolve-confirmed_iff o e r (range e present)).0 (sym at_effect ∙ h)),
        λ (e2, here, k).
            ap (λ d. resolve o (record { discount = d })) here
            ∙ (resolve-confirmed_iff o e2 r (range e2 here)).1 k,
      )
]
