-- ===== src/Text/Space.antt =====
-- strings.TrimSpace: the white space of Unicode in its UTF-8 encoding, cut at both ends.
use go_benefit.Prelude.{ℕ, Bool, ◌&&◌, ◌||◌, [], ◌∷◌, leb, ◌==◌, nat_eq, if◌then◌else◌}
use mathlib.Core.List.{reverse}
use go_benefit.Text.{Text}

-- '\t', '\n', '\v', '\f', '\r' and ' '
unfoldable pub is_space_1 : ℕ → Bool
is_space_1 a = leb 9 a && leb a 13 || a == 32

-- U+0085 and U+00A0
unfoldable pub is_space_2 : ℕ → ℕ → Bool
is_space_2 a b = a == 0xc2 && (b == 0x85 || b == 0xa0)

-- U+1680, U+2000 to U+200A, U+2028, U+2029, U+202F, U+205F and U+3000
unfoldable pub is_space_3 : ℕ → ℕ → ℕ → Bool
is_space_3 a b c =
    a == 0xe1 && b == 0x9a && c == 0x80
    || a == 0xe2 && b == 0x80 && (leb 0x80 c && leb c 0x8a || c == 0xa8 || c == 0xa9 || c == 0xaf)
    || a == 0xe2 && b == 0x81 && c == 0x9f
    || a == 0xe3 && b == 0x80 && c == 0x80

-- Cuts the spaces at the front.
unfoldable pub trim_left : Text → Text
unfolding is_space_1 is_space_2 is_space_3
trim_left [] = []
trim_left (a ∷ []) = if is_space_1 a then [] else a ∷ []
trim_left (a ∷ b ∷ []) =
    let one = trim_left (b ∷ []) in
    if is_space_1 a then one else if is_space_2 a b then [] else a ∷ b ∷ []
trim_left (a ∷ b ∷ c ∷ s) =
    let one = trim_left (b ∷ c ∷ s) in
    let two = trim_left (c ∷ s) in
    let three = trim_left s in
    if is_space_1 a
    then one
    else if is_space_2 a b
    then two
    else if is_space_3 a b c
    then three
    else a ∷ b ∷ c ∷ s

-- The same on a reversed text, whose encodings stand backwards.
unfoldable pub trim_reversed : Text → Text
unfolding is_space_1 is_space_2 is_space_3
trim_reversed [] = []
trim_reversed (a ∷ []) = if is_space_1 a then [] else a ∷ []
trim_reversed (a ∷ b ∷ []) =
    let one = trim_reversed (b ∷ []) in
    if is_space_1 a then one else if is_space_2 b a then [] else a ∷ b ∷ []
trim_reversed (a ∷ b ∷ c ∷ s) =
    let one = trim_reversed (b ∷ c ∷ s) in
    let two = trim_reversed (c ∷ s) in
    let three = trim_reversed s in
    if is_space_1 a
    then one
    else if is_space_2 b a
    then two
    else if is_space_3 c b a
    then three
    else a ∷ b ∷ c ∷ s

unfoldable pub trim_space : Text → Text
unfolding trim_left trim_reversed
trim_space s = reverse (trim_reversed (reverse (trim_left s)))
