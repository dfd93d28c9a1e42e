-- ===== src/Drivertest/Test.antt =====
-- A subtest over the state of a provider: what testing.T makes of t.Fatal and t.Skip, and of a panic.
use go_benefit.Prelude.{◌≡◌, refl, ap, ◌⊎◌, inl, inr, ◌≢◌, arith, String, Bool, if◌then◌else◌}
use go_benefit.Errors.{Result, ok, err}
use go_benefit.Drivertest.{Verdict, passed, fatal}

pub data Outcome (A : Type 0) : Type 0 where
  returned : A → Outcome A
  failed : String → Outcome A
  skipped : String → Outcome A
  panicked : Outcome A

-- What a subtest does, and the state that it leaves.
abbrev pub Test : Type 0 → Type 0 → Type 0
Test S A = S → Outcome A × S

infixl 5 ◌>>=◌ ◌>>◌
abbrev pub ◌>>=◌ : {S A B : Type 0} → Test S A → (A → Test S B) → Test S B
◌>>=◌ m f s = elim (m s).0 [
  | returned a ↦ f a (m s).1
  | failed msg ↦ (failed msg, (m s).1)
  | skipped msg ↦ (skipped msg, (m s).1)
  | panicked ↦ (panicked, (m s).1)
]

abbrev pub ◌>>◌ : {S B : Type 0} → Test S (Unit {0}) → Test S B → Test S B
m >> k = m >>= λ _. k

abbrev pub pure : {S A : Type 0} → A → Test S A
pure a s = (returned a, s)

abbrev pub fail : {S A : Type 0} → String → Test S A
fail msg s = (failed msg, s)

abbrev pub skip : {S A : Type 0} → String → Test S A
skip msg s = (skipped msg, s)

-- A nil dereference, a call of a nil function, or a type assertion that does not hold.
abbrev pub panic : {S A : Type 0} → Test S A
panic s = (panicked, s)

-- `if bad { t.Fatal(msg) }`
abbrev pub fail_when : {S : Type 0} → Bool → String → Test S (Unit {0})
fail_when bad msg s = (if bad then failed msg else returned tt, s)

-- A call of a driver.
abbrev pub call : {S A : Type 0} → (S → A × S) → Test S A
call op s = (returned (op s).0, (op s).1)

-- `if err != nil { t.Fatalf(msg, err) }`
abbrev pub want : {S A : Type 0} → Result A → String → Test S A
want (ok a) msg s = (returned a, s)
want (err e) msg s = (failed msg, s)

-- A Check function.
abbrev pub settle : {S : Type 0} → Verdict → Test S (Unit {0})
settle passed s = (returned tt, s)
settle (fatal msg) s = (failed msg, s)

-- An assertion of the fixture.
abbrev pub assert : {S : Type 0} → (S → Verdict × S) → Test S (Unit {0})
assert callback s = settle (callback s).0 (callback s).1

not_other :
    {S A B : Type 0} (g : A → Test S B) (t : S) (b : B) (o : Outcome A) (u : S)
    → ((a : A) → o ≢ returned a)
    → ◌>>=◌ (λ s. (o, u)) g u ≢ (returned b, t)
not_other g t b (returned a) u other h = other a refl
not_other g t b (failed msg) u other h = ground arith
not_other g t b (skipped msg) u other h = ground arith
not_other g t b panicked u other h = ground arith

Outcome-cases :
    {A : Type 0} (o : Outcome A) → ((a : A) × (o ≡ returned a)) ⊎ ((a : A) → o ≢ returned a)
Outcome-cases (returned a) = inl (a, refl)
Outcome-cases (failed msg) = inr (λ a e. cc)
Outcome-cases (skipped msg) = inr (λ a e. cc)
Outcome-cases panicked = inr (λ a e. cc)

-- A chain that returns, taken apart.
pub >>=-eq-returned :
    {S A B : Type 0} (m : Test S A) (g : A → Test S B) (s t : S) (b : B)
    → (m >>= g) s ≡ (returned b, t)
    → (a : A) × (u : S) × (m s ≡ (returned a, u)) × (g a u ≡ (returned b, t))
>>=-eq-returned m g s t b h = elim (Outcome-cases (m s).0) [
  | inl (a, e) ↦ (a, (m s).1, ap (λ o. (o, (m s).1)) e, rw (e, ◌>>=◌) at h)
  | inr other ↦ absurd (not_other g t b (m s).0 (m s).1 other h)
]

-- A chain whose first step returns.
pub >>=-of-returned :
    {S A B : Type 0} (m : Test S A) (g : A → Test S B) (s t : S) (a : A)
    → m s ≡ (returned a, t)
    → (m >>= g) s ≡ g a t
>>=-of-returned m g s t a h = ap (λ p. ◌>>=◌ (λ u. p) g s) h
