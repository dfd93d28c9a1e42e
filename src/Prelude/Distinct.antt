-- ===== src/Prelude/Distinct.antt =====
-- Membership by `==`, lists without repetition, and loops that keep a set of the keys they have seen.
use mathlib.Core.Path.{◌≡◌, refl}
use mathlib.Core.Logic.{◌↔◌}
use mathlib.Core.Bool.{Bool, true, false}
use mathlib.Core.List.{List, [], ◌∷◌, map}
use native.Mathlib.Omega.{arith}
use go_benefit.Prelude.Lists.{All, any, is_nil}
use go_benefit.Prelude.Equality.{Eq, ◌==◌}

module _ {ℓ} {K : Type ℓ} ⦃e : Eq K⦄ where
  -- slices.Contains, and the test of a key in a map used as a set.
  abbrev pub has : List K → K → Bool
  has xs a = any (λ x. x == a) xs

  pub has_not_nil : (xs : List K) (a : K) → has xs a ≡ true → is_nil xs ≡ false
  has_not_nil [] a h = cc
  has_not_nil (x ∷ xs) a h = refl

  abbrev pub IsDistinct : List K → Type 0
  IsDistinct [] = Unit
  IsDistinct (x ∷ xs) = (has xs x ≡ false) × IsDistinct xs

module _ {ℓ κ μ} {A : Type ℓ} {K : Type κ} ⦃e : Eq K⦄ (P : A → Type μ) (key : A → K) where
  -- What a loop over a list checks that tests each element, then its key against those seen.
  abbrev pub Passes : List K → List A → Type μ
  Passes seen [] = Unit
  Passes seen (x ∷ xs) = P x × (has seen (key x) ≡ false) × Passes (key x ∷ seen) xs

  fresh_iff :
      (k : K) (seen : List K) (xs : List A)
      → All (λ x. has (k ∷ seen) (key x) ≡ false) xs
        ↔ (All (λ x. has seen (key x) ≡ false) xs × (has (map key xs) k ≡ false))
  fresh_iff k seen [] = ground arith
  fresh_iff k seen (x ∷ xs) =
      ground (arith, e.equals_iff k (key x), e.equals_iff (key x) k, fresh_iff k seen xs)

  Passes-from_iff :
      (seen : List K) (xs : List A)
      → Passes seen xs
        ↔ (All P xs × IsDistinct (map key xs) × All (λ x. has seen (key x) ≡ false) xs)
  Passes-from_iff seen [] = ground arith
  Passes-from_iff seen (x ∷ xs) =
      ground (arith, Passes-from_iff (key x ∷ seen) xs, fresh_iff (key x) seen xs)

  All-fresh : (xs : List A) → All (λ x. has {K = K} [] (key x) ≡ false) xs
  All-fresh [] = tt
  All-fresh (x ∷ xs) = (refl, All-fresh xs)

  pub Passes-iff : (xs : List A) → Passes [] xs ↔ (All P xs × IsDistinct (map key xs))
  Passes-iff xs = (
    λ h. let k = (Passes-from_iff [] xs).0 h in (k.0, k.1),
    λ h. (Passes-from_iff [] xs).1 (h.0, h.1, All-fresh xs),
  )
