-- ===== src/Text/Order/Laws.antt =====
-- The lexical order of texts, and sorting by it.
use go_benefit.Prelude.{◌≡◌, refl, inl, inr, true, false, List, [], ◌∷◌, arith, Bool-cases}
use mathlib.Core.List.{Perm}
use mathlib.Core.List.Perm
use go_benefit.Text.{Text}
use go_benefit.Text.Order.{text_leb, place, sort_by}

pub text_leb_total : (s t : Text) → text_leb s t ≡ false → text_leb t s ≡ true
unfolding text_leb
text_leb_total [] t h = cc
text_leb_total (a ∷ s) [] h = refl
text_leb_total (a ∷ s) (b ∷ t) h = ground (arith, text_leb_total s t)

pub text_leb_antisymm : (s t : Text) → text_leb s t ≡ true → text_leb t s ≡ true → s ≡ t
unfolding text_leb
text_leb_antisymm [] [] h k = refl
text_leb_antisymm [] (b ∷ t) h k = cc
text_leb_antisymm (a ∷ s) [] h k = cc
text_leb_antisymm (a ∷ s) (b ∷ t) h k = ground (arith, text_leb_antisymm s t)

module _ {ℓ} {A : Type ℓ} (key : A → Text) where
  -- Each key is at most the next one.
  abbrev pub IsSorted : List A → Type 0
  IsSorted [] = Unit
  IsSorted (x ∷ []) = Unit
  IsSorted (x ∷ y ∷ xs) = (text_leb (key x) (key y) ≡ true) × IsSorted (y ∷ xs)

  place-IsSorted_cons :
      (x y : A) (ys : List A)
      → text_leb (key x) (key y) ≡ false
      → IsSorted (y ∷ ys)
      → IsSorted (place key x ys)
      → IsSorted (y ∷ place key x ys)
  unfolding place
  place-IsSorted_cons x y [] h s p = (text_leb_total (key x) (key y) h, tt)
  place-IsSorted_cons x y (z ∷ zs) h s p = ground (arith, text_leb_total (key x) (key y) h)

  place-IsSorted : (x : A) (ys : List A) → IsSorted ys → IsSorted (place key x ys)
  unfolding place
  place-IsSorted x [] h = tt
  place-IsSorted x (y ∷ []) h = ground (arith, text_leb_total (key x) (key y))
  place-IsSorted x (y ∷ z ∷ zs) h = elim (Bool-cases (text_leb (key x) (key y))) [
    | inl before ↦ rw before (before, h)
    | inr after ↦
        rw after (place-IsSorted_cons x y (z ∷ zs) after h (place-IsSorted x (z ∷ zs) h.1))
  ]

  pub sort_by-IsSorted : (xs : List A) → IsSorted (sort_by key xs)
  unfolding sort_by
  sort_by-IsSorted [] = tt
  sort_by-IsSorted (x ∷ xs) = place-IsSorted x (sort_by key xs) (sort_by-IsSorted xs)

  place-perm : (x : A) (ys : List A) → Perm (place key x ys) (x ∷ ys)
  unfolding place
  place-perm x [] = Perm.refl (x ∷ [])
  place-perm x (y ∷ ys) = elim (Bool-cases (text_leb (key x) (key y))) [
    | inl before ↦ rw before (Perm.refl (x ∷ y ∷ ys))
    | inr after ↦ rw after (Perm.trans (Perm.cons y (place-perm x ys)) (Perm.swap x y ys))
  ]

  pub sort_by-perm : (xs : List A) → Perm (sort_by key xs) xs
  unfolding sort_by
  sort_by-perm [] = Perm.refl []
  sort_by-perm (x ∷ xs) = Perm.trans (place-perm x (sort_by key xs)) (Perm.cons x (sort_by-perm xs))
