-- ===== src/Text/Order.antt =====
-- The lexical order of Go strings, byte by byte, and sorting by it (slices.Sort and sort.Slice).
pub mod Laws
pub mod Canonical
use go_benefit.Prelude.{
  ℕ, Bool, true, false, ◌&&◌, ◌||◌, List, [], ◌∷◌, ltb, ◌==◌, nat_eq, if◌then◌else◌,
}
use go_benefit.Text.{Text}

-- `s <= t`
unfoldable pub text_leb : Text → Text → Bool
text_leb [] t = true
text_leb (a ∷ s) [] = false
text_leb (a ∷ s) (b ∷ t) = ltb a b || a == b && text_leb s t

-- A stable sort by a key.
module _ {ℓ} {A : Type ℓ} (key : A → Text) where
  unfoldable pub place : A → List A → List A
  place x [] = x ∷ []
  place x (y ∷ ys) = if text_leb (key x) (key y) then x ∷ y ∷ ys else y ∷ place x ys

  unfoldable pub sort_by : List A → List A
  unfolding place
  sort_by [] = []
  sort_by (x ∷ xs) = place x (sort_by xs)
