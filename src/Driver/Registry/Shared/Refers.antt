-- ===== src/Driver/Registry/Shared/Refers.antt =====
-- The arrays that a descriptor refers to, as a test and as a predicate.
use go_benefit.Prelude.{
  ℕ, Bool, true, ◌≡◌, sym, inl, inr, List, [], ◌∷◌, any, all, All, arith, Bool-cases, nat_eq,
}
use go_benefit.Memory.{Slice, nil, part, elements, SliceIn}
use go_benefit.Driver.Registry.Shared.{CapabilityRef, DescriptorRef, Store, capabilities_in}
use go_benefit.Driver.Registry.Shared.World.{slice_refers, refers, slice_within, within}
use go_benefit.Driver.Registry.Shared.Frame.{ModesIn, DescriptorIn}

module _ (P : ℕ → Type 0) where
  pub slice_refers-In : (s : Slice) (a : ℕ) → SliceIn P s → slice_refers s a ≡ true → P a
  slice_refers-In nil a h k = absurd (cc)
  slice_refers-In (part b offset count) a h k = let same : b ≡ a = ground arith in rw (sym same) h

  modes_refer-In :
      (cs : List CapabilityRef) (a : ℕ)
      → ModesIn P cs
      → any (λ c. slice_refers c.modes a) cs ≡ true
      → P a
  modes_refer-In [] a h k = absurd (cc)
  modes_refer-In (c ∷ cs) a (h, hs) k = elim (Bool-cases (slice_refers c.modes a)) [
    | inl here ↦ slice_refers-In c.modes a h here
    | inr later ↦ modes_refer-In cs a hs (ground arith)
  ]

  refers-In :
      (m : Store) (d : DescriptorRef) (a : ℕ) → DescriptorIn P m d → refers m d a ≡ true → P a
  refers-In m d a h k = elim (Bool-cases (slice_refers d.operations a)) [
    | inl here ↦ slice_refers-In d.operations a h.operations here
    | inr there ↦ elim (Bool-cases (slice_refers d.config_schema.schema a)) [
      | inl here ↦ slice_refers-In d.config_schema.schema a h.schema here
      | inr elsewhere ↦
          modes_refer-In (elements (capabilities_in m) d.operations) a h.operation_modes
            (ground arith)
    ]
  ]

  pub any_refers-In :
      (m : Store) (ds : List DescriptorRef) (a : ℕ)
      → All (DescriptorIn P m) ds
      → any (λ d. refers m d a) ds ≡ true
      → P a
  any_refers-In m [] a h k = absurd (cc)
  any_refers-In m (d ∷ ds) a (h, hs) k = elim (Bool-cases (refers m d a)) [
    | inl here ↦ refers-In m d a h here
    | inr later ↦ any_refers-In m ds a hs (rw later at k)
  ]

module _ (p : ℕ → Bool) where
  slice_within-In : (s : Slice) → slice_within p s ≡ true → SliceIn (λ a. p a ≡ true) s
  slice_within-In nil h = tt
  slice_within-In (part b offset count) h = h

  modes_within-In :
      (cs : List CapabilityRef)
      → all (λ c. slice_within p c.modes) cs ≡ true
      → ModesIn (λ a. p a ≡ true) cs
  modes_within-In [] h = tt
  modes_within-In (c ∷ cs) h =
      (slice_within-In c.modes (ground arith), modes_within-In cs (ground arith))

  pub within-In :
      (m : Store) (d : DescriptorRef) → within p m d ≡ true → DescriptorIn (λ a. p a ≡ true) m d
  within-In m d h = record {
    operations = slice_within-In d.operations (ground arith);
    operation_modes = modes_within-In (elements (capabilities_in m) d.operations) (ground arith);
    schema = slice_within-In d.config_schema.schema (ground arith);
  }
