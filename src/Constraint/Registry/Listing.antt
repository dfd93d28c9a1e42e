-- ===== src/Constraint/Registry/Listing.antt =====
-- Types lists the registered types in lexical order.
use go_benefit.Prelude.{
  ◌≡◌, refl, Option, some, none, List, [], ◌∷◌, arith, has, is_some, ◌∙◌, All, ◌==◌, eq_iff,
  if◌then◌else◌, false,
}
use go_benefit.Text.{Text, text_eq}
use go_benefit.Text.Order.Laws.{IsSorted, sort_by-IsSorted}
use go_benefit.Text.Order.{place, sort_by}
use go_benefit.Dict.{lookup, keys}
use go_benefit.Core.Constraint.{ConstraintType}
use go_benefit.Text.Order.Canonical.{first_at, IsApart, sort_by_unique}
use go_benefit.Dict.Distinct.{HasDistinctKeys, lookup-none}
use go_benefit.Constraint.Registry.State.{Reach, Reach-IsSound}
use go_benefit.Constraint.Registry.{Registry, get, types}

has-place : (x k : Text) (ys : List Text) → has (place (λ t. t) x ys) k ≡ has (x ∷ ys) k
unfolding place
has-place x k [] = refl
has-place x k (y ∷ ys) = ground (arith, has-place x k ys)

has-sort_by : (k : Text) (xs : List Text) → has (sort_by (λ t. t) xs) k ≡ has xs k
unfolding sort_by
has-sort_by k [] = refl
has-sort_by k (x ∷ xs) = ground (arith, has-place x k (sort_by (λ t. t) xs), has-sort_by k xs)

has-keys : (k : ConstraintType) (r : Registry) → has (keys r) k ≡ is_some (lookup k r)
unfolding lookup
has-keys k [] = refl
has-keys k ((j, f) ∷ r) = ground (arith, has-keys k r)

-- Types is sorted, and holds exactly the types under which Get finds an evaluator.
pub types_lem :
    (r : Option Registry) (k : ConstraintType)
    → IsSorted (λ t. t) (types r) × (has (types r) k ≡ is_some (get r k))
unfolding types get
types_lem none k = (tt, refl)
types_lem (some r) k = (sort_by-IsSorted (λ t. t) (keys r), has-sort_by k (keys r) ∙ has-keys k r)

first_at-keys :
    (k : ConstraintType) (r : Registry)
    → first_at (λ t. t) k (keys r) ≡ (if is_some (lookup k r) then some k else none)
unfolding first_at lookup
first_at-keys k [] = refl
first_at-keys k ((j, f) ∷ r) = ground (arith, eq_iff j k, first_at-keys k r)

keys-fresh :
    (k : ConstraintType) (r : Registry)
    → All (λ entry. (entry.0 == k) ≡ false) r
    → All (λ t. (t == k) ≡ false) (keys r)
keys-fresh k [] h = tt
keys-fresh k ((j, f) ∷ r) (h, hs) = (h, keys-fresh k r hs)

keys-IsApart : (r : Registry) → HasDistinctKeys r → IsApart (λ t. t) (keys r)
keys-IsApart [] h = tt
keys-IsApart ((k, f) ∷ r) (fresh, h) = (keys-fresh k r (lookup-none k r fresh), keys-IsApart r h)

-- Two constraint registries that calls of Register and Unregister build from NewRegistry have the
-- same Types where Get finds an evaluator under the same types in both: the order in which a map
-- holds its entries is not seen.
pub types_unique :
    (r s : Registry)
    → Reach r
    → Reach s
    → ((k : ConstraintType) → is_some (get (some r) k) ≡ is_some (get (some s) k))
    → types (some r) ≡ types (some s)
unfolding types get
types_unique r s reach_r reach_s same =
    sort_by_unique (λ t. t) (keys r) (keys s) (keys-IsApart r (Reach-IsSound reach_r).distinct)
      (keys-IsApart s (Reach-IsSound reach_s).distinct)
      (λ k. ground (arith, first_at-keys k r, first_at-keys k s, same k))
