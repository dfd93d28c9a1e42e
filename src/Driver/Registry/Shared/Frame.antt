-- ===== src/Driver/Registry/Shared/Frame.antt =====
-- The arrays that a descriptor refers to, and memories that agree on them.
use go_benefit.Prelude.{ℕ, ◌≤◌, ◌<◌, ◌≡◌, refl, List, [], ◌∷◌, map, All, arith}
use go_benefit.Memory.{Grows, Slice, nil, part, elements, SliceIn}
use go_benefit.Driver.Registry.Shared.{
  CapabilityRef, SchemaRef, DescriptorRef, Store, bytes_in, modes_in, capabilities_in,
  view_capability, view_schema, view,
}

-- The arrays that slices refer to satisfy a predicate.
abbrev pub ModesIn : (ℕ → Type 0) → List CapabilityRef → Type 0
ModesIn P = All (λ c. SliceIn P c.modes)

pub record DescriptorIn (P : ℕ → Type 0) (m : Store) (d : DescriptorRef) : Type 0 where
  pub operations : SliceIn P d.operations
  pub operation_modes : ModesIn P (elements (capabilities_in m) d.operations)
  pub schema : SliceIn P d.config_schema.schema

-- Allocated before, and allocated between two moments.
abbrev pub Below : ℕ → ℕ → Type 0
Below n a = a < n

abbrev pub Between : ℕ → ℕ → ℕ → Type 0
Between lo hi a = (lo ≤ a) × (a < hi)

module _ {P Q : ℕ → Type 0} (weaken : (a : ℕ) → P a → Q a) where
  pub SliceIn-mono : (s : Slice) → SliceIn P s → SliceIn Q s
  SliceIn-mono nil h = tt
  SliceIn-mono (part a offset count) h = weaken a h

  pub ModesIn-mono : (cs : List CapabilityRef) → ModesIn P cs → ModesIn Q cs
  ModesIn-mono [] h = tt
  ModesIn-mono (c ∷ cs) (h, hs) = (SliceIn-mono c.modes h, ModesIn-mono cs hs)

  pub DescriptorIn-mono : {m : Store} {d : DescriptorRef} → DescriptorIn P m d → DescriptorIn Q m d
  DescriptorIn-mono {m} {d} h = record {
    operations = SliceIn-mono d.operations h.operations;
    operation_modes = ModesIn-mono (elements (capabilities_in m) d.operations) h.operation_modes;
    schema = SliceIn-mono d.config_schema.schema h.schema;
  }

-- What holds of memories that agree on the arrays referred to.
module _ {P : ℕ → Type 0} (m n : Store) (agree : (a : ℕ) → P a → n.cell a ≡ m.cell a) where
  pub bytes-frame : (s : Slice) → SliceIn P s → elements (bytes_in n) s ≡ elements (bytes_in m) s
  bytes-frame nil h = refl
  bytes-frame (part a offset count) h = ground (arith, agree a h)

  pub modes-frame : (s : Slice) → SliceIn P s → elements (modes_in n) s ≡ elements (modes_in m) s
  modes-frame nil h = refl
  modes-frame (part a offset count) h = ground (arith, agree a h)

  pub capabilities-frame :
      (s : Slice) → SliceIn P s → elements (capabilities_in n) s ≡ elements (capabilities_in m) s
  capabilities-frame nil h = refl
  capabilities-frame (part a offset count) h = ground (arith, agree a h)

  pub capability_views-frame :
      (cs : List CapabilityRef)
      → ModesIn P cs
      → map (view_capability n) cs ≡ map (view_capability m) cs
  capability_views-frame [] h = refl
  capability_views-frame (c ∷ cs) (h, hs) = cc (modes-frame c.modes h, capability_views-frame cs hs)

  pub view_schema-frame : (s : SchemaRef) → SliceIn P s.schema → view_schema n s ≡ view_schema m s
  view_schema-frame s h = ground (arith, bytes-frame s.schema h)

  pub view-frame : (d : DescriptorRef) → DescriptorIn P m d → view n d ≡ view m d
  view-frame d h = ground (
    arith,
    capabilities-frame d.operations h.operations,
    capability_views-frame (elements (capabilities_in m) d.operations) h.operation_modes,
    bytes-frame d.config_schema.schema h.schema,
  )

  pub DescriptorIn-frame : {d : DescriptorRef} → DescriptorIn P m d → DescriptorIn P n d
  DescriptorIn-frame {d} h = record {
    operations = h.operations;
    operation_modes = rw (capabilities-frame d.operations h.operations) h.operation_modes;
    schema = h.schema;
  }

-- A memory that has grown agrees with the one before on what that one had allocated.
pub Grows-Below : {m n : Store} → Grows m n → (a : ℕ) → Below m.next a → n.cell a ≡ m.cell a
Grows-Below g a h = g.same a h

pub Grows-Between :
    (lo : ℕ) {n o : Store} → Grows n o → (a : ℕ) → Between lo n.next a → o.cell a ≡ n.cell a
Grows-Between lo g a h = g.same a h.1
