-- ===== src/Driver/Registry/Shared/Clones.antt =====
-- What a copy refers to, and what it holds.
use go_benefit.Prelude.{ℕ, ◌≡◌, refl, ◌∙◌, List, [], ◌∷◌, map, length, arith}
use go_benefit.Memory.{
  alloc, Grows, Grows-refl, Grows-trans, alloc-Grows, Slice, nil, part, take, drop, elements,
  take_all, SliceIn,
}
use go_benefit.Core.Operation.{OperationMode}
use go_benefit.Driver.Registry.Shared.{
  CapabilityRef, SchemaRef, DescriptorRef, capabilities, Store, bytes_in, modes_in, capabilities_in,
  view_capability, view_schema, view, clone_bytes, append_to_nil, clone_each, clone_capability_refs,
  clone_schema_ref, clone_descriptor_ref,
}
use go_benefit.Driver.Registry.Shared.Frame.{
  ModesIn, DescriptorIn, Below, Between, SliceIn-mono, ModesIn-mono, modes-frame,
  capability_views-frame, bytes-frame, capabilities-frame, Grows-Below, Grows-Between,
}

-- A copy is made in new arrays alone, and holds what the slice held.
pub record Copied {A : Type 0} (read : Store → Slice → List A) (s : Slice) (m : Store)
    (result : Slice × Store) : Type 0 where
  pub grows : Grows m result.1
  pub fresh : SliceIn (Between m.next result.1.next) result.0
  pub equal : read result.1 result.0 ≡ read m s

clone_bytes-Copied :
    (s : Slice) (m : Store) → Copied (λ n. elements (bytes_in n)) s m (clone_bytes s m)
unfolding clone_bytes
clone_bytes-Copied nil m = record { grows = Grows-refl m; fresh = tt; equal = refl }
clone_bytes-Copied (part a offset count) m = record {
  grows = alloc-Grows _ m;
  fresh = omega arith;
  equal = ground (arith, take_all (take count (drop offset (bytes_in m a))));
}

-- append copies the modes xs.
record Appended (xs : List OperationMode) (m : Store) (result : Slice × Store) : Type 0 where
  grows : Grows m result.1
  fresh : SliceIn (Between m.next result.1.next) result.0
  equal : elements (modes_in result.1) result.0 ≡ xs

append_to_nil-Appended : (xs : List OperationMode) (m : Store) → Appended xs m (append_to_nil xs m)
unfolding append_to_nil
append_to_nil-Appended [] m = record { grows = Grows-refl m; fresh = tt; equal = refl }
append_to_nil-Appended (x ∷ xs) m = record {
  grows = alloc-Grows _ m;
  fresh = omega arith;
  equal = ground (arith, take_all xs);
}

record CopiedEach (cs : List CapabilityRef) (m : Store) (result : List CapabilityRef × Store)
    : Type 0 where
  grows : Grows m result.1
  fresh : ModesIn (Between m.next result.1.next) result.0
  equal : map (view_capability result.1) result.0 ≡ map (view_capability m) cs

clone_each-CopiedEach :
    (cs : List CapabilityRef) (m : Store)
    → ModesIn (Below m.next) cs
    → CopiedEach cs m (clone_each cs m)
unfolding clone_each
clone_each-CopiedEach [] m h = record { grows = Grows-refl m; fresh = tt; equal = refl }
clone_each-CopiedEach (c ∷ cs) m (h, hs) =
    let first = append_to_nil-Appended (elements (modes_in m) c.modes) m in
    let m1 : Store = (append_to_nil (elements (modes_in m) c.modes) m).1 in
    let copied : Slice = (append_to_nil (elements (modes_in m) c.modes) m).0 in
    let m2 : Store = (clone_each cs m1).1 in
    let rest =
      clone_each-CopiedEach cs m1
        (ModesIn-mono (λ a k. omega (arith, first.grows.next_le)) cs hs) in
    let head : elements (modes_in m2) copied ≡ elements (modes_in m) c.modes =
      modes-frame m1 m2 (Grows-Between m.next rest.grows) copied first.fresh ∙ first.equal in
    let tail : map (view_capability m2) (clone_each cs m1).0 ≡ map (view_capability m) cs =
      rest.equal ∙ capability_views-frame m m1 (Grows-Below first.grows) cs hs in
    record {
      grows = Grows-trans first.grows rest.grows;
      fresh = (
        SliceIn-mono (λ a k. omega (arith, rest.grows.next_le)) copied first.fresh,
        ModesIn-mono (λ a k. omega (arith, first.grows.next_le)) _ rest.fresh,
      );
      equal = cc (head, tail);
    }

clone_capability_refs-Copied :
    (s : Slice) (m : Store)
    → ModesIn (Below m.next) (elements (capabilities_in m) s)
    → Copied
        (λ n r. map (view_capability n) (elements (capabilities_in n) r))
        s
        m
        (clone_capability_refs s m)
      × ModesIn
          (Between m.next (clone_capability_refs s m).1.next)
          (elements (capabilities_in (clone_capability_refs s m).1) (clone_capability_refs s m).0)
unfolding clone_capability_refs
clone_capability_refs-Copied s m h =
    let each = clone_each-CopiedEach (elements (capabilities_in m) s) m h in
    let m1 : Store = (clone_each (elements (capabilities_in m) s) m).1 in
    let copies : List CapabilityRef = (clone_each (elements (capabilities_in m) s) m).0 in
    let after : Store = (alloc (capabilities copies) m1).1 in
    let grown : Grows m1 after = alloc-Grows (capabilities copies) m1 in
    let stored : elements (capabilities_in after) (part m1.next 0 (length copies)) ≡ copies =
      ground (arith, take_all copies) in
    (
      record {
        grows = Grows-trans each.grows grown;
        fresh = omega (arith, each.grows.next_le);
        equal = rw stored (
            capability_views-frame m1 after (Grows-Between m.next grown) copies each.fresh
            ∙ each.equal);
      },
      rw stored (ModesIn-mono (λ a k. omega arith) copies each.fresh),
    )

pub clone_schema_ref-Copied :
    (s : SchemaRef) (m : Store)
    → Copied
        (λ n. elements (bytes_in n))
        s.schema
        m
        ((clone_schema_ref s m).0.schema, (clone_schema_ref s m).1)
unfolding clone_schema_ref
clone_schema_ref-Copied s m = clone_bytes-Copied s.schema m

-- A copy of a descriptor whose arrays are allocated refers to new arrays alone, and reads as the
-- descriptor does; the arrays allocated before are not written.
pub record CopiedDescriptor (d : DescriptorRef) (m : Store) (result : DescriptorRef × Store)
    : Type 0 where
  pub grows : Grows m result.1
  pub fresh : DescriptorIn (Between m.next result.1.next) result.1 result.0
  pub equal : view result.1 result.0 ≡ view m d

pub clone_schema_ref-view :
    (s : SchemaRef) (m : Store)
    → view_schema (clone_schema_ref s m).1 (clone_schema_ref s m).0 ≡ view_schema m s
unfolding clone_schema_ref
clone_schema_ref-view s m = ground (arith, (clone_bytes-Copied s.schema m).equal)

pub clone_schema_ref-Grows : (s : SchemaRef) (m : Store) → Grows m (clone_schema_ref s m).1
clone_schema_ref-Grows s m = (clone_schema_ref-Copied s m).grows

pub clone_descriptor_ref-CopiedDescriptor :
    (d : DescriptorRef) (m : Store)
    → DescriptorIn (Below m.next) m d
    → CopiedDescriptor d m (clone_descriptor_ref d m)
unfolding clone_descriptor_ref
clone_descriptor_ref-CopiedDescriptor d m h =
    let (ops, inner) = clone_capability_refs-Copied d.operations m h.operation_modes in
    let m1 : Store = (clone_capability_refs d.operations m).1 in
    let operations : Slice = (clone_capability_refs d.operations m).0 in
    let schema = clone_schema_ref-Copied d.config_schema m1 in
    let m2 : Store = (clone_schema_ref d.config_schema m1).1 in
    let agree : (a : ℕ) → Between m.next m1.next a → m2.cell a ≡ m1.cell a =
      Grows-Between m.next schema.grows in
    let held : elements (capabilities_in m2) operations ≡ elements (capabilities_in m1) operations =
      capabilities-frame m1 m2 agree operations ops.fresh in
    let wider : (a : ℕ) → Between m.next m1.next a → Between m.next m2.next a =
      λ a k. omega (arith, schema.grows.next_le) in
    let old_schema : elements (bytes_in m1) d.config_schema.schema
        ≡ elements (bytes_in m) d.config_schema.schema =
      bytes-frame m m1 (Grows-Below ops.grows) d.config_schema.schema h.schema in
    let later : (a : ℕ) → Between m1.next m2.next a → Between m.next m2.next a =
      λ a k. omega (arith, ops.grows.next_le) in
    let operations_equal : map (view_capability m2) (elements (capabilities_in m2) operations)
        ≡ map (view_capability m) (elements (capabilities_in m) d.operations) =
      rw held (capability_views-frame m1 m2 agree _ inner ∙ ops.equal) in
    let schema_equal : elements (bytes_in m2) (clone_schema_ref d.config_schema m1).0.schema
        ≡ elements (bytes_in m) d.config_schema.schema =
      schema.equal ∙ old_schema in
    record {
      grows = Grows-trans ops.grows schema.grows;
      fresh = record {
        operations = SliceIn-mono wider operations ops.fresh;
        operation_modes = rw held (ModesIn-mono wider _ inner);
        schema = SliceIn-mono later _ schema.fresh;
      };
      equal = λ i. record (view m d) {
        operations = operations_equal i;
        config_schema = record (view_schema m d.config_schema) { schema = schema_equal i };
      };
    }
