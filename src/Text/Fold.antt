-- ===== src/Text/Fold.antt =====
-- strings.ToUpper and strings.EqualFold on ASCII bytes. The package calls them on currency codes
-- only, which it has checked to be ASCII letters before.
use go_benefit.Prelude.{
  ℕ, ◌+◌, ◌-◌, ◌≡◌, refl, ◌↔◌, Bool, true, false, ◌&&◌, ◌||◌, [], ◌∷◌, map, arith, leb, ◌==◌,
  nat_eq, if◌then◌else◌,
}
use go_benefit.Text.{Text}

unfoldable pub is_upper : ℕ → Bool
is_upper b = leb b'A' b && leb b b'Z'

unfoldable pub is_lower : ℕ → Bool
is_lower b = leb b'a' b && leb b b'z'

unfoldable pub upper_byte : ℕ → ℕ
unfolding is_lower
upper_byte b = if is_lower b then b - 32 else b

unfoldable pub to_upper : Text → Text
unfolding upper_byte
to_upper = map upper_byte

-- Equal, or the two cases of one letter.
unfoldable pub same_letter : ℕ → ℕ → Bool
unfolding is_upper
same_letter a b = a == b || is_upper a && b == a + 32 || is_upper b && a == b + 32

unfoldable pub equal_fold : Text → Text → Bool
unfolding same_letter
equal_fold [] [] = true
equal_fold (a ∷ s) (b ∷ t) = same_letter a b && equal_fold s t
equal_fold _ _ = false

same_letter_iff : (a b : ℕ) → (same_letter a b ≡ true) ↔ (upper_byte a ≡ upper_byte b)
unfolding same_letter upper_byte
same_letter_iff a b = ground arith

-- Folding compares the upper-case forms.
pub equal_fold_iff : (s t : Text) → (equal_fold s t ≡ true) ↔ (to_upper s ≡ to_upper t)
unfolding equal_fold to_upper
equal_fold_iff [] [] = ground arith
equal_fold_iff [] (b ∷ t) = ground arith
equal_fold_iff (a ∷ s) [] = ground arith
equal_fold_iff (a ∷ s) (b ∷ t) = ground (arith, same_letter_iff a b, equal_fold_iff s t)

upper_upper_byte : (b : ℕ) → upper_byte (upper_byte b) ≡ upper_byte b
unfolding upper_byte
upper_upper_byte b = ground arith

pub to_upper_idem : (code : Text) → to_upper (to_upper code) ≡ to_upper code
unfolding to_upper
to_upper_idem [] = refl
to_upper_idem (b ∷ rest) = ground (arith, upper_upper_byte b, to_upper_idem rest)
