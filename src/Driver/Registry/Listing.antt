-- ===== src/Driver/Registry/Listing.antt =====
-- Descriptors lists the descriptors of the registered definitions in the order of their types.
use go_benefit.Prelude.{
  ◌≡◌, refl, Option, some, none, [], ◌∷◌, map, All, arith, false, ◌==◌, eq_iff, ◌∙◌,
}
use mathlib.Core.Path.{subst}
use go_benefit.Text.{Text, text_eq}
use go_benefit.Text.Order.Laws.{IsSorted, sort_by-IsSorted}
use go_benefit.Text.Order.Canonical.{first_at, IsApart, first_at-sort_by, sort_by_unique}
use go_benefit.Dict.{lookup, delete}
use go_benefit.Dict.Distinct.{
  HasDistinctKeys, lookup-none, insert-HasDistinctKeys, delete-HasDistinctKeys,
}
use go_benefit.Core.Info.{DriverType}
use go_benefit.Core.Config.{Json}
use go_benefit.Core.Driver.{DriverDescriptor}
use go_benefit.Driver.Registry.{
  Registry, RegisteredDriverDefinition, snapshot, unregister, find, descriptors,
}
use go_benefit.Driver.Registry.State.{
  clone_descriptor_lem, register-some, register-Registration_iff, Step, registered, removed, Reach,
  start, next, Reach-HasEntries,
}

abbrev pub by_type : DriverDescriptor → Text
by_type d = d.driver_type

-- The descriptor that a lookup finds.
abbrev pub described :
    {S : Type 0} → Option (RegisteredDriverDefinition S) → Option DriverDescriptor
described none = none
described (some e) = some e.descriptor

module _ {S : Type 0} (json : Json) where
  Step-HasDistinctKeys :
      {r after : Registry S} → Step json r after → HasDistinctKeys r → HasDistinctKeys after
  unfolding unregister
  Step-HasDistinctKeys {r} (registered v e) h =
      let k = (register-Registration_iff json (some r) v _).0 e in
      let (valid, fresh, result) = register-some json r k.definition _ (rw k.given at e) in
      rw result (insert-HasDistinctKeys _ _ r h)
  Step-HasDistinctKeys {r} {after} (removed typ e) h =
      let same : delete typ r ≡ after = ground arith in
      subst HasDistinctKeys same (delete-HasDistinctKeys typ r h)

  Reach-HasDistinctKeys : {r : Registry S} → Reach json r → HasDistinctKeys r
  Reach-HasDistinctKeys start = tt
  Reach-HasDistinctKeys (next reach step) = Step-HasDistinctKeys step (Reach-HasDistinctKeys reach)

  -- Each entry stands under the type of its descriptor.
  abbrev IsOwn : DriverType × RegisteredDriverDefinition S → Type 0
  IsOwn (k, e) = e.descriptor.driver_type ≡ k

  HasEntries-IsOwn :
      (r : Registry S)
      → HasDistinctKeys r
      → ((k : DriverType) (e : RegisteredDriverDefinition S)
          → lookup k r ≡ some e
          → e.descriptor.driver_type ≡ k)
      → All IsOwn r
  unfolding lookup
  HasEntries-IsOwn [] h own = tt
  HasEntries-IsOwn ((k, e) ∷ r) (fresh, h) own = (
    own k e (ground (arith, eq_iff k k)),
    HasEntries-IsOwn r h (λ j g found. own j g (ground (arith, eq_iff k j))),
  )

  first_at-snapshots :
      (k : DriverType) (r : Registry S)
      → All IsOwn r
      → first_at by_type k (map snapshot r) ≡ described (lookup k r)
  unfolding first_at lookup
  first_at-snapshots k [] h = refl
  first_at-snapshots k ((j, e) ∷ r) (own, h) =
      ground (arith, clone_descriptor_lem e.descriptor, first_at-snapshots k r h)

  snapshots-fresh :
      (k : DriverType) (r : Registry S)
      → All IsOwn r
      → All (λ entry. (entry.0 == k) ≡ false) r
      → All (λ d. (by_type d == k) ≡ false) (map snapshot r)
  snapshots-fresh k [] own h = tt
  snapshots-fresh k ((j, e) ∷ r) (own, owns) (h, hs) =
      (ground (arith, clone_descriptor_lem e.descriptor), snapshots-fresh k r owns hs)

  snapshots-IsApart :
      (r : Registry S) → All IsOwn r → HasDistinctKeys r → IsApart by_type (map snapshot r)
  snapshots-IsApart [] own h = tt
  snapshots-IsApart ((k, e) ∷ r) (own, owns) (fresh, h) = (
    rw (clone_descriptor_lem e.descriptor, own) (snapshots-fresh k r owns (lookup-none k r fresh)),
    snapshots-IsApart r owns h,
  )

  Reach-IsOwn : {r : Registry S} → Reach json r → All IsOwn r
  unfolding find
  Reach-IsOwn {r} reach =
      HasEntries-IsOwn r (Reach-HasDistinctKeys reach)
        (λ k e found. (Reach-HasEntries json reach k e found).own_type)

  -- In a registry that calls of Register and Unregister build, Descriptors is sorted by driver type, and
  -- its entry under a type is the descriptor of the definition that a lookup of the type finds, if any.
  pub descriptors_lem :
      {r : Registry S}
      → Reach json r
      → IsSorted by_type (descriptors (some r))
        × ((k : DriverType)
            → first_at by_type k (descriptors (some r)) ≡ described (find (some r) k))
  unfolding descriptors find
  descriptors_lem {r} reach = (
    sort_by-IsSorted by_type (map snapshot r),
    λ k. first_at-sort_by by_type k (map snapshot r) ∙ first_at-snapshots k r (Reach-IsOwn reach),
  )

  -- Two driver registries that calls of Register and Unregister build from NewRegistry have the
  -- same Descriptors where a lookup of any type finds the same descriptor in both: the order in
  -- which a map holds its entries is not seen.
  pub descriptors_unique :
      {r s : Registry S}
      → Reach json r
      → Reach json s
      → ((k : DriverType) → described (find (some r) k) ≡ described (find (some s) k))
      → descriptors (some r) ≡ descriptors (some s)
  unfolding descriptors find
  descriptors_unique {r} {s} reach_r reach_s same =
      sort_by_unique by_type (map snapshot r) (map snapshot s)
        (snapshots-IsApart r (Reach-IsOwn reach_r) (Reach-HasDistinctKeys reach_r))
        (snapshots-IsApart s (Reach-IsOwn reach_s) (Reach-HasDistinctKeys reach_s))
        (λ k. ground (
          arith,
          first_at-snapshots k r (Reach-IsOwn reach_r),
          first_at-snapshots k s (Reach-IsOwn reach_s),
          same k,
        ))
