-- ===== src/Core/Money/Upper.antt =====
-- Upper case keeps a currency code well-formed.
use go_benefit.Prelude.{ℕ, ◌≡◌, refl, [], ◌∷◌, length, All, inl, inr, arith, ap, suc}
use go_benefit.Text.{Text}
use go_benefit.Text.Fold.{upper_byte, to_upper}
use go_benefit.Core.Money.Valid.{IsLetter, IsCurrency}

upper_byte-IsLetter : (c : ℕ) → IsLetter c → IsLetter (upper_byte c)
unfolding upper_byte
upper_byte-IsLetter c h = ground arith

to_upper-IsLetter : (code : Text) → All IsLetter code → All IsLetter (to_upper code)
unfolding to_upper
to_upper-IsLetter [] h = tt
to_upper-IsLetter (c ∷ code) (h, t) = (upper_byte-IsLetter c h, to_upper-IsLetter code t)

length-to_upper : (code : Text) → length (to_upper code) ≡ length code
unfolding to_upper
length-to_upper [] = refl
length-to_upper (c ∷ code) = ap suc (length-to_upper code)

to_upper-nil : to_upper [] ≡ []
unfolding to_upper
to_upper-nil = refl

pub to_upper-IsCurrency : (code : Text) → IsCurrency code → IsCurrency (to_upper code)
to_upper-IsCurrency code (inl none_given) = inl (rw none_given to_upper-nil)
to_upper-IsCurrency code (inr (three, letters)) =
    inr (rw (length-to_upper code) three, to_upper-IsLetter code letters)
