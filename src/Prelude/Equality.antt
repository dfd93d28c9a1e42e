-- ===== src/Prelude/Equality.antt =====
-- Go's `==` on comparable types, as an interface with one operator.
use Prim.Native.Nat.{ℕ}
use mathlib.Core.Path.{◌≡◌, refl}
use mathlib.Core.Logic.{◌↔◌}
use mathlib.Core.Bool.{Bool, true, false, ◌&&◌, false≢true}
use mathlib.Core.List.{List, [], ◌∷◌}
use native.Mathlib.Omega.{arith}
use go_benefit.Prelude.Tests.{nat_beq, nat_beq_iff, if◌then◌else◌}

-- A type with a Boolean test that decides its paths.
pub record Eq {ℓ} (K : Type ℓ) : Type ℓ where
  pub equals : (x y : K) → Bool
  pub equals_iff : (x y : K) → (equals x y ≡ true) ↔ (x ≡ y)

module _ {ℓ} {K : Type ℓ} ⦃eq : Eq K⦄ where
  infix 50 ◌==◌
  abbrev pub ◌==◌ : (x y : K) → Bool
  x == y = eq.equals x y

  pub eq_iff : (x y : K) → ((x == y) ≡ true) ↔ (x ≡ y)
  eq_iff = eq.equals_iff

  pub eq_refl : (x : K) → (x == x) ≡ true
  eq_refl x = (eq.equals_iff x x).1 refl

instance abbrev pub nat_eq : Eq ℕ
nat_eq = record { equals = nat_beq; equals_iff = nat_beq_iff }

-- A function changed at one number.
abbrev pub update {ℓ} : {A : Type ℓ} → ℕ → A → (ℕ → A) → ℕ → A
update i a f j = if i == j then a else f j

-- Strings and slices are compared element by element.
module _ {ℓ} {A : Type ℓ} ⦃e : Eq A⦄ where
  unfoldable pub list_beq : List A → List A → Bool
  list_beq [] [] = true
  list_beq (a ∷ xs) (b ∷ ys) = (a == b) && list_beq xs ys
  list_beq _ _ = false

  pub list_beq_iff : (xs ys : List A) → (list_beq xs ys ≡ true) ↔ (xs ≡ ys)
  unfolding list_beq
  list_beq_iff [] [] = ground arith
  list_beq_iff (a ∷ xs) (b ∷ ys) = ground (arith, e.equals_iff a b, list_beq_iff xs ys)
  list_beq_iff [] (b ∷ ys) = ground arith
  list_beq_iff (a ∷ xs) [] = ground arith

-- The test that a decision makes.
module _ {ℓ} {A : Type ℓ} where
  abbrev pub decided : Dec A → Bool
  decided d = elim d [ yes _ ↦ true | no _ ↦ false ]

  pub decided_iff : (d : Dec A) → (decided d ≡ true) ↔ A
  decided_iff (yes a) = (λ _. a, λ _. refl)
  decided_iff (no f) = (λ e. absurd (false≢true e), λ a. absurd (f a))

abbrev pub eq_of_discrete {ℓ} : {A : Type ℓ} → Discrete A → Eq A
eq_of_discrete d = record {
  equals = λ a b. decided (d a b);
  equals_iff = λ a b. decided_iff (d a b);
}
