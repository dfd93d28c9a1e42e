-- ===== src/Core/Money/Valid.antt =====
-- What validation of currencies and monetary effects accepts.
use go_benefit.Prelude.{
  inl, inr, not, ◌||◌, leb, Bool-cases, ℕ, ◌+◌, ◌≤◌, ◌≡◌, ◌↔◌, ◌⊎◌, true, false, [], ◌∷◌, length,
  All, arith, ◌==◌, nat_eq,
}
use go_benefit.Int64.{ℤ, pos, negsuc, ◌≤ℤ◌, ◌+ℤ◌, IsInt64, max_int64, add64, beq_ℤ, int_eq, ltb_ℤ}
use go_benefit.Int64.Laws.{add64_pos, add64_overflow}
use go_benefit.Text.{Text}
use go_benefit.Errors.{ok}
use go_benefit.Core.Money.{
  has_letters_only, validate_currency_code, DiscountEffectType, DiscountEffect, is_known_effect,
  validate_discount_effect,
}

abbrev pub IsLetter : ℕ → Type 0
IsLetter c = ((b'A' ≤ c) × (c ≤ b'Z')) ⊎ ((b'a' ≤ c) × (c ≤ b'z'))

-- Empty, or three ASCII letters.
abbrev pub IsCurrency : Text → Type 0
IsCurrency code = (code ≡ []) ⊎ ((length code ≡ 3) × All IsLetter code)

has_letters_only_iff : (code : Text) → (has_letters_only code ≡ true) ↔ All IsLetter code
unfolding has_letters_only
has_letters_only_iff [] = ground arith
has_letters_only_iff (c ∷ code) = ground (arith, has_letters_only_iff code)

-- A currency code is accepted exactly when it is empty or three ASCII letters.
pub validate_currency_code_iff :
    (code : Text) → (validate_currency_code code ≡ ok tt) ↔ IsCurrency code
unfolding validate_currency_code
validate_currency_code_iff [] = ground arith
validate_currency_code_iff (c ∷ code) = ground (arith, has_letters_only_iff (c ∷ code))

-- The amounts of an effect taken as integers without bounds.
pub record IsConsistent (e : DiscountEffect) : Type 0 where
  pub known : is_known_effect e.effect_type ≡ true
  pub currency : IsCurrency e.currency
  pub discount_nonneg : pos 0 ≤ℤ e.discount_amount
  pub payable_nonneg : pos 0 ≤ℤ e.payable_amount
  pub sum : e.original_amount ≡ e.payable_amount +ℤ e.discount_amount
  pub free : e.effect_type ≡ DiscountEffectType.free → e.payable_amount ≡ pos 0

-- The test of the sum wraps, yet it passes only where the sum is exact: a sum that leaves the range
-- of int64 turns negative.
amounts_agree_iff :
    (a b c : ℕ)
    → a ≤ max_int64
    → b ≤ max_int64
    → c ≤ max_int64
    → ((ltb_ℤ (pos a) (pos c) || not (pos a == add64 (pos c) (pos b))) ≡ false) ↔ (a ≡ c + b)
unfolding beq_ℤ
amounts_agree_iff a b c ha hb hc = elim (Bool-cases (leb (c + b) max_int64)) [
  | inl fits ↦ ground (arith, add64_pos c b (ground arith))
  | inr over ↦ let (n, e) = add64_overflow c b hc hb (ground arith) in rw e (ground arith)
]

abbrev effect : DiscountEffectType → Text → ℤ → ℤ → ℤ → DiscountEffect
effect t code o d p = record {
  effect_type = t;
  currency = code;
  original_amount = o;
  discount_amount = d;
  payable_amount = p;
}

validate_effect_of_pos_iff :
    (t : DiscountEffectType) (code : Text) (a b c : ℕ)
    → a ≤ max_int64
    → b ≤ max_int64
    → c ≤ max_int64
    → (validate_discount_effect (effect t code (pos a) (pos b) (pos c)) ≡ ok tt)
      ↔ IsConsistent (effect t code (pos a) (pos b) (pos c))
unfolding validate_discount_effect ◌+ℤ◌
validate_effect_of_pos_iff t code a b c ha hb hc =
    ground (arith, validate_currency_code_iff code, amounts_agree_iff a b c ha hb hc)

validate_effect_iff :
    (t : DiscountEffectType) (code : Text) (o d p : ℤ)
    → IsInt64 o
    → IsInt64 d
    → IsInt64 p
    → (validate_discount_effect (effect t code o d p) ≡ ok tt) ↔ IsConsistent (effect t code o d p)
unfolding validate_discount_effect ◌+ℤ◌
validate_effect_iff t code (pos a) (pos b) (pos c) ho hd hp =
    validate_effect_of_pos_iff t code a b c ho hd hp
validate_effect_iff t code (negsuc a) d p ho hd hp = ground arith
validate_effect_iff t code (pos a) (negsuc b) p ho hd hp = ground arith
validate_effect_iff t code (pos a) (pos b) (negsuc c) ho hd hp = ground arith

-- For amounts in the range of int64, Validate accepts an effect exactly when its type is known, its
-- currency well-formed, no amount negative, the original amount the exact sum of the two others, and
-- nothing is payable if it is free. The wrap-around of the sum lets no other effect pass.
pub validate_discount_effect_iff :
    (e : DiscountEffect)
    → IsInt64 e.original_amount
    → IsInt64 e.discount_amount
    → IsInt64 e.payable_amount
    → (validate_discount_effect e ≡ ok tt) ↔ IsConsistent e
validate_discount_effect_iff e =
    validate_effect_iff e.effect_type e.currency e.original_amount e.discount_amount
      e.payable_amount
