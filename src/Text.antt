-- ===== src/Text.antt =====
-- Go strings as sequences of bytes. The children hold what the package uses of `strings`: ToUpper
-- and EqualFold on ASCII bytes (Fold), TrimSpace (Space) and the lexical order (Order).
pub mod Fold
pub mod Space
pub mod Order
pub mod Utf8
use Prim.Native.Char.{code}
use Prim.Native.String.{[], ◌∷◌}
use go_benefit.Prelude.{ℕ, List, [] as nil, ◌∷◌ as cons, String, Eq, list_beq, list_beq_iff, nat_eq}

abbrev pub Text : Type 0
Text = List ℕ

-- The bytes of an ASCII literal.
abbrev pub bytes : String → Text
bytes [] = nil
bytes (c ∷ s) = cons (code c) (bytes s)

instance abbrev pub text_eq : Eq Text
text_eq = record { equals = list_beq; equals_iff = list_beq_iff }
