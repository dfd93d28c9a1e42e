-- ===== src/Driver/Registry/Shared/Replies.antt =====
-- What Descriptors and ConfigSchema return over the shared memory.
use go_benefit.Prelude.{
  ℕ, ◌≡◌, refl, ◌∙◌, sym, ap, inl, inr, some, List, [], ◌∷◌, map, All, arith, Bool-cases,
}
use go_benefit.Text.{Text}
use go_benefit.Text.Order.{text_leb, place, sort_by}
use go_benefit.Memory.{Grows, Grows-refl, Grows-trans}
use go_benefit.Dict.Matching.{Match, none_left, entry}
use go_benefit.Core.Driver.{DriverDescriptor}
use go_benefit.Driver.Registry.{Registry, RegisteredDriverDefinition, snapshot, descriptors}
use go_benefit.Driver.Registry.State.{clone_descriptor_lem}
use go_benefit.Driver.Registry.Shared.{
  DescriptorRef, Store, view, clone_descriptor_ref, EntryRef, RegistryRef, clone_entries,
  descriptors_ref,
}
use go_benefit.Driver.Registry.Shared.Frame.{
  DescriptorIn, Below, Between, DescriptorIn-mono, DescriptorIn-frame, view-frame, Grows-Below,
  Grows-Between,
}
use go_benefit.Driver.Registry.Shared.Clones.{clone_descriptor_ref-CopiedDescriptor}

-- A map goes through a sort by a key that it keeps.
module _ {A B : Type 0} (key : A → Text) (key' : B → Text) (f : A → B)
    (keeps : (a : A) → key' (f a) ≡ key a) where
  map-place : (x : A) (xs : List A) → map f (place key x xs) ≡ place key' (f x) (map f xs)
  unfolding place
  map-place x [] = refl
  map-place x (y ∷ ys) = elim (Bool-cases (text_leb (key x) (key y))) [
    | inl le ↦ rw (keeps x, keeps y, le) refl
    | inr gt ↦ rw (keeps x, keeps y, gt) (ap (λ l. f y ∷ l) (map-place x ys))
  ]

  map-sort_by : (xs : List A) → map f (sort_by key xs) ≡ sort_by key' (map f xs)
  unfolding sort_by
  map-sort_by [] = refl
  map-sort_by (x ∷ xs) = map-place x (sort_by key xs) ∙ ap (place key' (f x)) (map-sort_by xs)

module _ {A : Type 0} (key : A → Text) (P : A → Type 0) where
  All-place : (x : A) (xs : List A) → P x → All P xs → All P (place key x xs)
  unfolding place
  All-place x [] h hs = (h, tt)
  All-place x (y ∷ ys) h (k, ks) = elim (Bool-cases (text_leb (key x) (key y))) [
    | inl le ↦ rw le (h, (k, ks))
    | inr gt ↦ rw gt (k, All-place x ys h ks)
  ]

  All-sort_by : (xs : List A) → All P xs → All P (sort_by key xs)
  unfolding sort_by
  All-sort_by [] h = tt
  All-sort_by (x ∷ xs) (h, hs) = All-place x (sort_by key xs) h (All-sort_by xs hs)

All-mono :
    {A : Type 0} {P Q : A → Type 0} (weaken : (a : A) → P a → Q a) (xs : List A)
    → All P xs
    → All Q xs
All-mono weaken [] h = tt
All-mono weaken (x ∷ xs) (h, hs) = (weaken x h, All-mono weaken xs hs)

-- An entry whose arrays are allocated reads as the snapshot of a registered definition.
pub record Reads {S : Type 0} (m : Store) (e : EntryRef S) (v : RegisteredDriverDefinition S)
    : Type 0 where
  pub inside : DescriptorIn (Below m.next) m e.descriptor
  pub equal : v.descriptor ≡ view m e.descriptor

-- Copies in new arrays alone that read as some descriptors.
pub record Listed (ds : List DriverDescriptor) (m : Store) (result : List DescriptorRef × Store)
    : Type 0 where
  pub grows : Grows m result.1
  pub fresh : All (DescriptorIn (Between m.next result.1.next) result.1) result.0
  pub equal : map (view result.1) result.0 ≡ ds

module _ {S : Type 0} where
  Reads-Grows :
      {m n : Store} (g : Grows m n) (e : EntryRef S) (v : RegisteredDriverDefinition S)
      → Reads m e v
      → Reads n e v
  Reads-Grows {m} {n} g e v h = record {
    inside =
        DescriptorIn-mono (λ a k. omega (arith, g.next_le))
          (DescriptorIn-frame m n (Grows-Below g) h.inside);
    equal = h.equal ∙ sym (view-frame m n (Grows-Below g) e.descriptor h.inside);
  }

  clone_entries-Listed :
      (start : Store) {es : RegistryRef S} {r : Registry S} (m : Store)
      → Grows start m
      → Match (Reads start) es r
      → Listed (map snapshot r) m (clone_entries es m)
  unfolding clone_entries
  clone_entries-Listed start m grown none_left = record {
    grows = Grows-refl m;
    fresh = tt;
    equal = refl;
  }
  clone_entries-Listed start m grown (entry {v = e} {w = v} {vs = es} {ws = r} old hs) =
      let h = Reads-Grows grown e v old in
      let first = clone_descriptor_ref-CopiedDescriptor e.descriptor m h.inside in
      let copy : DescriptorRef = (clone_descriptor_ref e.descriptor m).0 in
      let m1 : Store = (clone_descriptor_ref e.descriptor m).1 in
      let rest = clone_entries-Listed start m1 (Grows-trans grown first.grows) hs in
      let m2 : Store = (clone_entries es m1).1 in
      let agree : (a : ℕ) → Between m.next m1.next a → m2.cell a ≡ m1.cell a =
        Grows-Between m.next rest.grows in
      let wider : (a : ℕ) → Between m.next m1.next a → Between m.next m2.next a =
        λ a k. omega (arith, rest.grows.next_le) in
      let later : (a : ℕ) → Between m1.next m2.next a → Between m.next m2.next a =
        λ a k. omega (arith, first.grows.next_le) in
      let same : view m2 copy ≡ v.descriptor =
        view-frame m1 m2 agree copy first.fresh ∙ first.equal ∙ sym h.equal in
      record {
        grows = Grows-trans first.grows rest.grows;
        fresh = (
          DescriptorIn-mono wider (DescriptorIn-frame m1 m2 agree first.fresh),
          All-mono (λ d. DescriptorIn-mono later) _ rest.fresh,
        );
        equal = cc (same, rest.equal, clone_descriptor_lem v.descriptor);
      }

  -- Descriptors over the shared memory.
  pub descriptors_ref-Listed :
      {es : RegistryRef S} {r : Registry S} (m : Store)
      → Match (Reads m) es r
      → Listed (descriptors (some r)) m (descriptors_ref es m)
  unfolding descriptors_ref descriptors
  descriptors_ref-Listed {es} {r} m h =
      let listed = clone_entries-Listed m m (Grows-refl m) h in
      let after : Store = (clone_entries es m).1 in
      let copies : List DescriptorRef = (clone_entries es m).0 in
      record {
        grows = listed.grows;
        fresh = All-sort_by (λ d. d.driver_type) _ copies listed.fresh;
        equal =
            map-sort_by (λ d. d.driver_type) (λ d. d.driver_type) (view after) (λ d. refl) copies
            ∙ ap (sort_by (λ d. d.driver_type)) listed.equal;
      }
