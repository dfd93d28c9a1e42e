-- ===== src/Driver/Registry/Shared/Invariant.antt =====
-- What holds of a registry in shared memory beside the registry of values.
use go_benefit.Prelude.{
  ℕ, Bool, true, false, ◌||◌, ◌<◌, ◌≡◌, refl, ◌∙◌, sym, inl, inr, some, arith, Bool-cases, nat_eq,
}
use go_benefit.Text.{text_eq}
use go_benefit.Memory.{Grows}
use go_benefit.Dict.{insert, contains}
use go_benefit.Dict.Matching.{Match, contains-Match, Match-mono}
use go_benefit.Errors.{
  Error, ok, err, errorf, errorf_two, sentinel, err_invalid_definition,
  driver_err_already_registered,
}
use go_benefit.Errors.Laws.{Result-cases}
use go_benefit.Core.Config.{Json}
use go_benefit.Core.Driver.{validate_descriptor}
use go_benefit.Driver.Registry.{Registry, RegisteredDriverDefinition, register}
use go_benefit.Driver.Registry.State.{clone_descriptor_lem, entry as entry_of}
use go_benefit.Driver.Registry.Shared.{
  Store, view, clone_descriptor_ref, DefinitionRef, EntryRef, definition_at, register_ref,
}
use go_benefit.Driver.Registry.Shared.World.{World}
use go_benefit.Driver.Registry.Shared.Frame.{
  DescriptorIn, Between, DescriptorIn-mono, DescriptorIn-frame, view-frame,
}

-- An array that is allocated, and that the application has no slice of.
abbrev pub Private : Store → (ℕ → Bool) → ℕ → Type 0
Private m held a = (a < m.next) × (held a ≡ false)

-- An entry is kept in private arrays, and reads as the entry of the registry of values.
pub record Keeps {S : Type 0} (m : Store) (held : ℕ → Bool) (e : EntryRef S)
    (v : RegisteredDriverDefinition S) : Type 0 where
  pub inside : DescriptorIn (Private m held) m e.descriptor
  pub equal : v.descriptor ≡ view m e.descriptor

pub record Inv {S : Type 0} (w : World S) (r : Registry S) : Type 0 where
  pub bounded : (a : ℕ) → w.held a ≡ true → a < w.memory.next
  pub entries : Match (Keeps w.memory w.held) w.entries r

module _ {S : Type 0} where
  Keeps-stays :
      {m n : Store} {held kept : ℕ → Bool}
      → ((a : ℕ) → Private m held a → n.cell a ≡ m.cell a)
      → ((a : ℕ) → Private m held a → Private n kept a)
      → (e : EntryRef S) (v : RegisteredDriverDefinition S) → Keeps m held e v
      → Keeps n kept e v
  Keeps-stays {m} {n} same stays e v h = record {
    inside = DescriptorIn-mono stays (DescriptorIn-frame m n same h.inside);
    equal = h.equal ∙ sym (view-frame m n same e.descriptor h.inside);
  }

  -- The application's slices change, and the memory only where it held a slice.
  pub Inv-stays :
      {w : World S} {r : Registry S} (inv : Inv w r) (n : Store) (kept : ℕ → Bool)
      → ((a : ℕ) → kept a ≡ true → a < n.next)
      → ((a : ℕ) → Private w.memory w.held a → n.cell a ≡ w.memory.cell a)
      → ((a : ℕ) → Private w.memory w.held a → Private n kept a)
      → Inv (record w { memory = n; held = kept }) r
  Inv-stays inv n kept bounded same stays = record {
    bounded = bounded;
    entries = Match-mono (Keeps _ _) (Keeps n kept) (Keeps-stays same stays) inv.entries;
  }

  -- Arrays are allocated, and the application gets slices of some of these.
  pub Inv-given :
      {w : World S} {r : Registry S} (inv : Inv w r) (n : Store) (given : ℕ → Bool)
      → Grows w.memory n
      → ((a : ℕ) → given a ≡ true → Between w.memory.next n.next a)
      → Inv (record w { memory = n; held = λ a. given a || w.held a }) r
  Inv-given {w} inv n given g new =
      Inv-stays inv n _
        (λ a h. elim (Bool-cases (given a)) [
          | inl fresh ↦ (new a fresh).1
          | inr old ↦ omega (arith, g.next_le, inv.bounded a (rw old at h))
        ])
        (λ a h. g.same a h.0)
        (λ a h. elim (Bool-cases (given a)) [
          | inl fresh ↦ absurd (omega (arith, (new a fresh).0, h.0))
          | inr old ↦ (omega (arith, g.next_le, h.0), rw old h.1)
        ])

  -- Register answers the same on both registries.
  pub data SameOutcome (json : Json) (d : DefinitionRef S) (w : World S) (r : Registry S)
      : Type 0 where
    refused :
        (e : Error)
        → register_ref json d w.entries w.memory ≡ err e
        → register json (some r) (some (definition_at w.memory d)) ≡ err e
        → SameOutcome json d w r
    accepted :
        register_ref json d w.entries w.memory
          ≡ ok (
            insert d.descriptor.driver_type
                (record {
                  definition = d;
                  descriptor = (clone_descriptor_ref d.descriptor w.memory).0;
                })
                w.entries,
            (clone_descriptor_ref d.descriptor w.memory).1,
          )
        → register json (some r) (some (definition_at w.memory d))
          ≡ ok (insert d.descriptor.driver_type (entry_of (definition_at w.memory d)) r)
        → SameOutcome json d w r

  pub register-SameOutcome :
      (json : Json) (d : DefinitionRef S) {w : World S} {r : Registry S}
      → Inv w r
      → SameOutcome json d w r
  unfolding register_ref register
  register-SameOutcome json d {w} {r} inv =
      let same : contains d.descriptor.driver_type w.entries ≡ contains d.descriptor.driver_type r =
        contains-Match (Keeps w.memory w.held) d.descriptor.driver_type inv.entries in
      elim (Result-cases (validate_descriptor json (view w.memory d.descriptor))) [
        | inl (e, invalid) ↦
            refused (errorf_two "%w: driver %q: %w" (sentinel err_invalid_definition) e)
              (rw invalid refl) (rw invalid refl)
        | inr (tt, valid) ↦ elim (Bool-cases (contains d.descriptor.driver_type r)) [
          | inl old ↦
              refused (errorf "%w: %q" (sentinel driver_err_already_registered))
                (rw (valid, same, old) refl) (rw (valid, old) refl)
          | inr new ↦
              accepted (rw (valid, same, new) refl)
                (rw (valid, new, clone_descriptor_lem (view w.memory d.descriptor)) refl)
        ]
      ]
