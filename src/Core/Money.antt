-- ===== src/Core/Money.antt =====
-- money.go: amounts with a currency, and monetary effects.
pub mod Valid
pub mod Upper
use go_benefit.Prelude.{
  ℕ, ◌+◌, Bool, true, false, not, ◌&&◌, ◌||◌, List, [], ◌∷◌, length, all, is_nil, leb, ltb, Eq,
  ◌==◌, nat_eq, eq_of_discrete,
}
use go_benefit.Int64.{ℤ, pos, ltb_ℤ, int_eq, add64, beq_ℤ}
use go_benefit.Text.{Text}
use go_benefit.Text.Fold.{is_upper, is_lower}
use go_benefit.Errors.{
  Check, ok, err, ◌>>=◌, ◌>>◌, fail_if, validation_error, errorf, sentinel, err_invalid_currency,
}
use native.Mathlib.Decide.{ℕ_discrete}

pub record Money : Type 0 where
  pub amount : ℤ
  pub currency : Text

abbrev pub is_zero_money : Money → Bool
is_zero_money m = m.amount == pos 0 && is_nil m.currency

-- The loop over the bytes of a code.
unfoldable pub has_letters_only : Text → Bool
unfolding is_upper is_lower
has_letters_only [] = true
has_letters_only (c ∷ code) = (is_upper c || is_lower c) && has_letters_only code

unfoldable pub validate_currency_code : Text → Check
unfolding has_letters_only
validate_currency_code [] = ok tt
validate_currency_code (c ∷ code) = do
  fail_if (not (length (c ∷ code) == 3)) (errorf "%w %q" (sentinel err_invalid_currency))
  fail_if (not (has_letters_only (c ∷ code))) (errorf "%w %q" (sentinel err_invalid_currency))

unfoldable pub validate_money : Money → Check
validate_money m = validate_currency_code m.currency

pub data DiscountEffectType : Type 0 where
  free amount percentage : DiscountEffectType
  other : Text → DiscountEffectType

unfoldable pub DiscountEffectType-discrete : Discrete DiscountEffectType
DiscountEffectType-discrete = hlevel ℕ_discrete

instance abbrev pub effect_type_eq : Eq DiscountEffectType
effect_type_eq = eq_of_discrete DiscountEffectType-discrete

pub record DiscountEffect : Type 0 where
  pub effect_type : DiscountEffectType
  pub currency : Text
  pub original_amount : ℤ
  pub discount_amount : ℤ
  pub payable_amount : ℤ

abbrev pub is_known_effect : DiscountEffectType → Bool
is_known_effect (DiscountEffectType.other t) = false
is_known_effect _ = true

unfoldable pub validate_discount_effect : DiscountEffect → Check
unfolding beq_ℤ
validate_discount_effect e = do
  fail_if (not (is_known_effect e.effect_type)) (validation_error "invalid discount effect type %q")
  validate_currency_code e.currency
  fail_if
      (ltb_ℤ e.original_amount (pos 0)
        || ltb_ℤ e.discount_amount (pos 0)
        || ltb_ℤ e.payable_amount (pos 0))
      (validation_error "discount effect amounts must not be negative")
  fail_if
      (ltb_ℤ e.original_amount e.payable_amount
        || not (e.original_amount == add64 e.payable_amount e.discount_amount))
      (validation_error "discount effect amounts are inconsistent")
  fail_if (e.effect_type == DiscountEffectType.free && not (e.payable_amount == pos 0))
      (validation_error "free effect must have a zero payable amount")
