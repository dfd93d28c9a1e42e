-- ===== src/Driver/Registry/Shared/Steps.antt =====
-- Every event keeps the registry in private arrays that read as the registry of values.
use go_benefit.Prelude.{
  ℕ, Bool, true, false, ◌≡◌, sym, inl, inr, none, some, arith, Bool-cases, Option-cases, nat_eq,
}
use go_benefit.Text.{text_eq}
use go_benefit.Memory.{Grows-refl}
use go_benefit.Dict.{lookup, insert, delete}
use go_benefit.Dict.Matching.{insert-Match, delete-Match, Match-mono}
use go_benefit.Core.Info.{DriverType}
use go_benefit.Core.Config.{Json}
use go_benefit.Driver.Registry.{Registry, RegisteredDriverDefinition, descriptors}
use go_benefit.Driver.Registry.State.{entry as entry_of}
use go_benefit.Driver.Registry.Shared.{
  Block, Store, clone_descriptor_ref, clone_schema_ref, DefinitionRef, EntryRef, RegistryRef,
  definition_at, descriptors_ref, config_schema_ref,
}
use go_benefit.Driver.Registry.Shared.World.{
  within, World, allocates, writes, registers, unregisters, describes, asks, perform, follow,
}
use go_benefit.Driver.Registry.Shared.Refers.{slice_refers-In, any_refers-In, within-In}
use go_benefit.Driver.Registry.Shared.Frame.{DescriptorIn-mono}
use go_benefit.Driver.Registry.Shared.Clones.{
  CopiedDescriptor, clone_descriptor_ref-CopiedDescriptor, clone_schema_ref-Copied,
}
use go_benefit.Driver.Registry.Shared.Replies.{Reads, Listed, descriptors_ref-Listed}
use go_benefit.Driver.Registry.Shared.Invariant.{
  Keeps, Inv, Inv-stays, Inv-given, refused, accepted, register-SameOutcome,
}

module _ {S : Type 0} where
  Keeps-Reads :
      {m : Store} {held : ℕ → Bool} (e : EntryRef S) (v : RegisteredDriverDefinition S)
      → Keeps m held e v
      → Reads m e v
  Keeps-Reads e v h = record { inside = DescriptorIn-mono (λ a k. k.0) h.inside; equal = h.equal }

  pub Inv-Listed :
      {w : World S} {r : Registry S}
      → Inv w r
      → Listed (descriptors (some r)) w.memory (descriptors_ref w.entries w.memory)
  Inv-Listed {w} inv =
      descriptors_ref-Listed w.memory
        (Match-mono (Keeps w.memory w.held) (Reads w.memory) Keeps-Reads inv.entries)

  pub allocates-Inv :
      (json : Json) (b : Block) {w : World S} {r : Registry S}
      → Inv w r
      → Inv (perform json (allocates b) w) r
  unfolding perform
  allocates-Inv json b {w} inv =
      Inv-stays inv _ _ (λ a h. ground (arith, inv.bounded a)) (λ a h. ground arith)
        (λ a h. ground arith)

  pub writes-Inv :
      (json : Json) (p : ℕ) (b : Block) {w : World S} {r : Registry S}
      → w.held p ≡ true
      → Inv w r
      → Inv (perform json (writes p b) w) r
  unfolding perform
  writes-Inv json p b {w} own inv =
      Inv-stays inv _ _ (λ a h. inv.bounded a h) (λ a h. ground arith) (λ a h. h)

  pub describes-Inv :
      (json : Json) {w : World S} {r : Registry S} → Inv w r → Inv (perform json describes w) r
  unfolding perform
  describes-Inv json {w} inv =
      let listed = Inv-Listed inv in
      Inv-given inv _ _ listed.grows (λ a h. any_refers-In _ _ _ a listed.fresh h)

  pub config_schema_ref-missing :
      (es : RegistryRef S) (typ : DriverType) (m : Store)
      → lookup typ es ≡ none
      → config_schema_ref es typ m ≡ (none, m)
  unfolding config_schema_ref
  config_schema_ref-missing es typ m h = ground (arith, h)

  pub config_schema_ref-found :
      (es : RegistryRef S) (typ : DriverType) (m : Store) (e : EntryRef S)
      → lookup typ es ≡ some e
      → config_schema_ref es typ m ≡ (
        some (clone_schema_ref e.descriptor.config_schema m).0,
        (clone_schema_ref e.descriptor.config_schema m).1,
      )
  unfolding config_schema_ref
  config_schema_ref-found es typ m e h = ground (arith, h)

  pub asks-Inv :
      (json : Json) (typ : DriverType) {w : World S} {r : Registry S}
      → Inv w r
      → Inv (perform json (asks typ) w) r
  unfolding perform
  asks-Inv json typ {w} inv = elim (Option-cases (lookup typ w.entries)) [
    | inl nothing ↦
        rw (config_schema_ref-missing w.entries typ w.memory nothing)
          (Inv-given inv w.memory (λ a. false) (Grows-refl w.memory) (λ a h. absurd (cc)))
    | inr (e, here) ↦ rw (config_schema_ref-found w.entries typ w.memory e here) (
        let copied = clone_schema_ref-Copied e.descriptor.config_schema w.memory in
        Inv-given inv _ _ copied.grows (λ a h. slice_refers-In _ _ a copied.fresh h))
  ]

  pub unregisters-Inv :
      (json : Json) (typ : DriverType) {w : World S} {r : Registry S}
      → Inv w r
      → Inv (perform json (unregisters typ) w) (delete typ r)
  unfolding perform
  unregisters-Inv json typ {w} inv = record {
    bounded = inv.bounded;
    entries = delete-Match (Keeps w.memory w.held) typ inv.entries;
  }

  module _ (json : Json) (d : DefinitionRef S) {w : World S} {r : Registry S} (inv : Inv w r)
      (own : within w.held w.memory d.descriptor ≡ true) where
    pub copied : CopiedDescriptor d.descriptor w.memory (clone_descriptor_ref d.descriptor w.memory)
    copied =
        clone_descriptor_ref-CopiedDescriptor d.descriptor w.memory
          (DescriptorIn-mono inv.bounded (within-In w.held w.memory d.descriptor own))

    registered-Inv :
        Inv
          (record w {
            memory = (clone_descriptor_ref d.descriptor w.memory).1;
            entries =
                insert d.descriptor.driver_type
                  (record {
                    definition = d;
                    descriptor = (clone_descriptor_ref d.descriptor w.memory).0;
                  })
                  w.entries;
          })
          (insert d.descriptor.driver_type (entry_of (definition_at w.memory d)) r)
    registered-Inv =
        let grown =
          Inv-stays inv (clone_descriptor_ref d.descriptor w.memory).1 w.held
            (λ a h. omega (arith, copied.grows.next_le, inv.bounded a h))
            (λ a h. copied.grows.same a h.0)
            (λ a h. (omega (arith, copied.grows.next_le, h.0), h.1)) in
        record {
          bounded = grown.bounded;
          entries =
              insert-Match (Keeps _ w.held) d.descriptor.driver_type _ _
                (record {
                  inside =
                      DescriptorIn-mono
                        (λ a k. (
                          k.1,
                          elim (Bool-cases (w.held a)) [
                            | inl old ↦ absurd (omega (arith, inv.bounded a old, k.0))
                            | inr new ↦ new
                          ],
                        ))
                        copied.fresh;
                  equal = sym copied.equal;
                })
                grown.entries;
        }

    pub registers-Inv : Inv (perform json (registers d) w) (follow json (registers d) w.memory r)
    unfolding perform follow
    registers-Inv = elim (register-SameOutcome json d inv) [
      | refused e p q ↦ rw (p, q) inv
      | accepted p q ↦ rw (p, q) registered-Inv
    ]
