-- ===== src/Dict.antt =====
-- Go maps as association lists: reading, `m[k] = v` and delete(m, k).
pub mod Distinct
pub mod Matching
use go_benefit.Prelude.{
  ◌≡◌, refl, Bool, true, false, Option, none, some, List, [], ◌∷◌, map, arith, Eq, ◌==◌, eq_iff,
  eq_refl, if◌then◌else◌, is_some,
}

abbrev pub Dict {ℓ κ} : Type ℓ → Type κ → Type (ℓ ⊔ κ)
Dict K V = List (K × V)

module _ {ℓ κ} {K : Type ℓ} {V : Type κ} ⦃e : Eq K⦄ where
  unfoldable pub lookup : K → Dict K V → Option V
  lookup key [] = none
  lookup key ((other, value) ∷ rest) = if other == key then some value else lookup key rest

  abbrev pub contains : K → Dict K V → Bool
  contains key entries = is_some (lookup key entries)

  -- The value stands where the key stood, or at the end.
  unfoldable pub insert : K → V → Dict K V → Dict K V
  insert key new [] = (key, new) ∷ []
  insert key new ((other, old) ∷ rest) =
      if other == key then (key, new) ∷ rest else (other, old) ∷ insert key new rest

  unfoldable pub delete : K → Dict K V → Dict K V
  delete key [] = []
  delete key ((other, value) ∷ rest) =
      let kept = delete key rest in if other == key then kept else (other, value) ∷ kept

  abbrev pub keys : Dict K V → List K
  keys = map (λ entry. entry.0)

  pub lookup-delete :
      (key wanted : K) (entries : Dict K V)
      → lookup wanted (delete key entries) ≡ (if key == wanted then none else lookup wanted entries)
  unfolding lookup delete
  lookup-delete key wanted [] = ground arith
  lookup-delete key wanted ((other, value) ∷ rest) = ground (
    arith,
    e.equals_iff key wanted,
    e.equals_iff other key,
    e.equals_iff other wanted,
    lookup-delete key wanted rest,
  )

  pub lookup-insert :
      (key wanted : K) (new : V) (entries : Dict K V)
      → lookup wanted (insert key new entries)
        ≡ (if key == wanted then some new else lookup wanted entries)
  unfolding lookup insert
  lookup-insert key wanted new [] = ground arith
  lookup-insert key wanted new ((other, old) ∷ rest) = ground (
    arith,
    e.equals_iff key wanted,
    e.equals_iff other key,
    e.equals_iff other wanted,
    lookup-insert key wanted new rest,
  )
