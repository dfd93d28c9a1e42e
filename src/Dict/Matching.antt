-- ===== src/Dict/Matching.antt =====
-- Two maps with the same keys in the same order and related values.
use go_benefit.Prelude.{
  ◌≡◌, refl, inl, inr, Option, none, some, [], ◌∷◌, arith, Eq, ◌==◌, Bool-cases,
}
use mathlib.Core.Path.{subst}
use go_benefit.Dict.{Dict, lookup, contains, insert, delete}

module _ {ℓ κ μ ν} {K : Type ℓ} {V : Type κ} {W : Type μ} (R : V → W → Type ν) where
  pub data Match : Dict K V → Dict K W → Type (ℓ ⊔ κ ⊔ μ ⊔ ν) where
    none_left : Match [] []
    entry :
        {k : K} {v : V} {w : W} {vs : Dict K V} {ws : Dict K W}
        → R v w
        → Match vs ws
        → Match ((k, v) ∷ vs) ((k, w) ∷ ws)

-- The values of the two maps under a key.
pub data Found {κ μ ν} {V : Type κ} {W : Type μ} (R : V → W → Type ν)
    : Option V → Option W → Type (κ ⊔ μ ⊔ ν) where
  missing : Found R none none
  found : {v : V} {w : W} → R v w → Found R (some v) (some w)

module _ {ℓ κ μ ν} {K : Type ℓ} {V : Type κ} {W : Type μ} ⦃e : Eq K⦄ (R : V → W → Type ν) where
  pub contains-Match :
      (k : K) {vs : Dict K V} {ws : Dict K W} → Match R vs ws → contains k vs ≡ contains k ws
  unfolding lookup
  contains-Match k none_left = refl
  contains-Match k (entry {k = j} r m) = ground (arith, contains-Match k m)

  pub lookup-Match :
      (k : K) {vs : Dict K V} {ws : Dict K W} → Match R vs ws → Found R (lookup k vs) (lookup k ws)
  unfolding lookup
  lookup-Match k none_left = missing
  lookup-Match k (entry {k = j} r m) = elim (Bool-cases (j == k)) [
    | inl same ↦ rw same (found r)
    | inr other ↦ rw other (lookup-Match k m)
  ]

  pub insert-Match :
      (k : K) (v : V) (w : W) {vs : Dict K V} {ws : Dict K W}
      → R v w
      → Match R vs ws
      → Match R (insert k v vs) (insert k w ws)
  unfolding insert
  insert-Match k v w r none_left = entry r none_left
  insert-Match k v w r (entry {k = j} q m) = elim (Bool-cases (j == k)) [
    | inl same ↦ rw same (entry r m)
    | inr other ↦ rw other (entry q (insert-Match k v w r m))
  ]

  pub delete-Match :
      (k : K) {vs : Dict K V} {ws : Dict K W} → Match R vs ws → Match R (delete k vs) (delete k ws)
  unfolding delete
  delete-Match k none_left = none_left
  delete-Match k (entry {k = j} q m) = elim (Bool-cases (j == k)) [
    | inl same ↦ rw same (delete-Match k m)
    | inr other ↦ rw other (entry q (delete-Match k m))
  ]

-- The relation may change along the entries.
pub Match-mono {ℓ κ μ ν ξ} :
    {K : Type ℓ} {V : Type κ} {W : Type μ} (R : V → W → Type ν) (Q : V → W → Type ξ)
    → ((v : V) (w : W) → R v w → Q v w)
    → {vs : Dict K V} {ws : Dict K W} → Match R vs ws
    → Match Q vs ws
Match-mono R Q weaken none_left = none_left
Match-mono R Q weaken (entry r m) = entry (weaken _ _ r) (Match-mono R Q weaken m)

pub Found-none {κ μ ν} :
    {V : Type κ} {W : Type μ} {R : V → W → Type ν} {a : Option V} {b : Option W}
    → Found R a b
    → a ≡ none
    → b ≡ none
Found-none missing h = refl
Found-none (found r) h = absurd (cc)

pub Found-some {κ μ ν} :
    {V : Type κ} {W : Type μ} {R : V → W → Type ν} {a : Option V} {b : Option W} (v : V)
    → Found R a b
    → a ≡ some v
    → (w : W) × (b ≡ some w) × R v w
Found-some v missing h = absurd (cc)
Found-some {R = R} v (found {w = w} r) h = (w, refl, subst (λ u. R u w) (cc) r)
