-- ===== src/Text/Utf8.antt =====
-- utf8.ValidString: well-formed UTF-8, with no surrogates, no overlong forms and nothing above
-- U+10FFFF.
use go_benefit.Prelude.{
  ℕ, zero, suc, Bool, true, false, ◌&&◌, Option, none, some, [], ◌∷◌, leb, ◌==◌, nat_eq,
  if◌then◌else◌,
}
use go_benefit.Text.{Text}

-- How many bytes follow a first byte, and the range of the next one.
unfoldable pub lead : ℕ → Option (ℕ × ℕ × ℕ)
lead c =
    if leb c 0x7f
    then some (0, 0x80, 0xbf)
    else if leb 0xc2 c && leb c 0xdf
    then some (1, 0x80, 0xbf)
    else if c == 0xe0
    then some (2, 0xa0, 0xbf)
    else if c == 0xed
    then some (2, 0x80, 0x9f)
    else if leb 0xe1 c && leb c 0xef
    then some (2, 0x80, 0xbf)
    else if c == 0xf0
    then some (3, 0x90, 0xbf)
    else if leb 0xf1 c && leb c 0xf3
    then some (3, 0x80, 0xbf)
    else if c == 0xf4
    then some (3, 0x80, 0x8f)
    else none

unfoldable pub valid_from : ℕ × ℕ × ℕ → Text → Bool
unfolding lead
valid_from (zero, lo, hi) [] = true
valid_from (suc n, lo, hi) [] = false
valid_from (zero, lo, hi) (c ∷ t) = elim (lead c) [ none ↦ false | some state ↦ valid_from state t ]
valid_from (suc n, lo, hi) (c ∷ t) = leb lo c && leb c hi && valid_from (n, 0x80, 0xbf) t

unfoldable pub valid_utf8 : Text → Bool
unfolding valid_from
valid_utf8 = valid_from (0, 0x80, 0xbf)
