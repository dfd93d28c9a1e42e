-- ===== src/Dict/Distinct.antt =====
-- Maps that hold each key once, as those built from the empty map do.
use go_benefit.Prelude.{◌≡◌, refl, inl, inr, false, none, [], ◌∷◌, All, arith, Eq, ◌==◌, Bool-cases}
use go_benefit.Dict.{Dict, lookup, insert, delete, lookup-insert, lookup-delete}

module _ {ℓ κ} {K : Type ℓ} {V : Type κ} ⦃e : Eq K⦄ where
  abbrev pub HasDistinctKeys : Dict K V → Type (ℓ ⊔ κ)
  HasDistinctKeys [] = Unit
  HasDistinctKeys ((k, v) ∷ m) = (lookup k m ≡ none) × HasDistinctKeys m

  pub insert-HasDistinctKeys :
      (k : K) (v : V) (m : Dict K V) → HasDistinctKeys m → HasDistinctKeys (insert k v m)
  unfolding insert lookup
  insert-HasDistinctKeys k v [] h = (refl, tt)
  insert-HasDistinctKeys k v ((j, w) ∷ m) (fresh, h) = ground (
    arith,
    e.equals_iff j k,
    e.equals_iff k j,
    lookup-insert k j v m,
    insert-HasDistinctKeys k v m h,
  )

  pub delete-HasDistinctKeys :
      (k : K) (m : Dict K V) → HasDistinctKeys m → HasDistinctKeys (delete k m)
  unfolding delete lookup
  delete-HasDistinctKeys k [] h = tt
  delete-HasDistinctKeys k ((j, w) ∷ m) (fresh, h) =
      ground (arith, lookup-delete k j m, delete-HasDistinctKeys k m h)

  -- No entry stands under the key of a later one.
  pub lookup-none :
      (k : K) (m : Dict K V) → lookup k m ≡ none → All (λ entry. (entry.0 == k) ≡ false) m
  unfolding lookup
  lookup-none k [] h = tt
  lookup-none k ((j, v) ∷ m) h = elim (Bool-cases (j == k)) [
    | inl same ↦ absurd (ground arith)
    | inr other ↦ (other, lookup-none k m (ground arith))
  ]
