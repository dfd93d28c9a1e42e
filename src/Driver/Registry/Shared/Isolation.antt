-- ===== src/Driver/Registry/Shared/Isolation.antt =====
-- Whatever the application writes, a registry in shared memory answers as the registry of values.
use go_benefit.Prelude.{
  ℕ, true, ◌≡◌, refl, ◌∙◌, sym, ap, inl, inr, Option, none, some, List, [], ◌∷◌, map, arith,
  Bool-cases, Option-cases,
}
use go_benefit.Text.{text_eq}
use go_benefit.Dict.{lookup, contains}
use go_benefit.Dict.Matching.{contains-Match, lookup-Match, none_left, Found-none, Found-some}
use go_benefit.Errors.{Result, ok, err, Check}
use go_benefit.Core.Info.{DriverType}
use go_benefit.Core.Config.{Json, ConfigSchema}
use go_benefit.Driver.Registry.{
  Registry, RegisteredDriverDefinition, register, unregister, config_schema, descriptors,
}
use go_benefit.Driver.Registry.State.{clone_schema_lem}
use go_benefit.Driver.Registry.Shared.{
  SchemaRef, Store, view, view_schema, DefinitionRef, definition_at, register_ref, descriptors_ref,
  config_schema_ref,
}
use go_benefit.Driver.Registry.Shared.World.{
  World, new_world, Event, allocates, writes, registers, unregisters, describes, asks, allowed,
  perform, follow, turn, play,
}
use go_benefit.Driver.Registry.Shared.Clones.{clone_schema_ref-view, clone_schema_ref-Copied}
use go_benefit.Driver.Registry.Shared.Invariant.{
  Keeps, Inv, refused, accepted, register-SameOutcome,
}
use go_benefit.Driver.Registry.Shared.Steps.{
  Inv-Listed, allocates-Inv, writes-Inv, describes-Inv, asks-Inv, unregisters-Inv, registers-Inv,
  copied, config_schema_ref-missing, config_schema_ref-found,
}

-- The error of a call, or none.
abbrev pub outcome {ℓ} : {A : Type ℓ} → Result A → Check
outcome (ok a) = ok tt
outcome (err e) = err e

-- What a returned schema holds.
abbrev pub schema_reply : Option SchemaRef × Store → Option ConfigSchema
schema_reply (none, m) = none
schema_reply (some s, m) = some (view_schema m s)

-- The calls of the registry's methods.
abbrev pub IsCall : {S : Type 0} → Event S → Type 0
IsCall (allocates b) = ⊥
IsCall (writes a b) = ⊥
IsCall _ = Unit

-- The next call of each method answers as that of the registry of values, and writes no array of the
-- application.
pub record Agrees {S : Type 0} (json : Json) (w : World S) (r : Registry S) : Type 0 where
  pub described :
      map (view (descriptors_ref w.entries w.memory).1) (descriptors_ref w.entries w.memory).0
      ≡ descriptors (some r)
  pub schema :
      (typ : DriverType)
      → schema_reply (config_schema_ref w.entries typ w.memory) ≡ config_schema (some r) typ
  pub registering :
      (d : DefinitionRef S)
      → outcome (register_ref json d w.entries w.memory)
        ≡ outcome (register json (some r) (some (definition_at w.memory d)))
  pub unregistering : (typ : DriverType) → contains typ w.entries ≡ (unregister (some r) typ).1
  pub unwritten :
      (e : Event S)
      → IsCall e
      → allowed e w ≡ true
      → (a : ℕ) → w.held a ≡ true
      → (perform json e w).memory.cell a ≡ w.memory.cell a

module _ {S : Type 0} (r : Registry S) (typ : DriverType) where
  config_schema-missing : lookup typ r ≡ none → config_schema (some r) typ ≡ none
  unfolding config_schema
  config_schema-missing h = ground (arith, h)

  config_schema-found :
      (v : RegisteredDriverDefinition S)
      → lookup typ r ≡ some v
      → config_schema (some r) typ ≡ some v.descriptor.config_schema
  unfolding config_schema
  config_schema-found v h = ground (arith, h, clone_schema_lem v.descriptor.config_schema)

module _ {S : Type 0} (json : Json) where
  turn-Inv :
      (e : Event S) {w : World S} {r : Registry S}
      → allowed e w ≡ true
      → Inv w r
      → Inv (perform json e w) (follow json e w.memory r)
  unfolding follow
  turn-Inv (allocates b) own inv = allocates-Inv json b inv
  turn-Inv (writes a b) own inv = writes-Inv json a b own inv
  turn-Inv (registers d) own inv = registers-Inv json d inv own
  turn-Inv (unregisters typ) own inv = unregisters-Inv json typ inv
  turn-Inv describes own inv = describes-Inv json inv
  turn-Inv (asks typ) own inv = asks-Inv json typ inv

  play-Inv :
      (events : List (Event S)) (state : World S × Registry S)
      → Inv state.0 state.1
      → Inv (play json events state).0 (play json events state).1
  unfolding play
  play-Inv [] state inv = inv
  play-Inv (e ∷ events) (w, r) inv =
      let next : Inv (turn json e (w, r)).0 (turn json e (w, r)).1 =
        elim (Bool-cases (allowed e w)) [
          | inl own ↦ rw own (turn-Inv e own inv)
          | inr other ↦ rw other inv
        ] in
      play-Inv events (turn json e (w, r)) next

  new_world-Inv : Inv {S = S} new_world []
  new_world-Inv = record { bounded = λ a h. absurd (cc); entries = none_left }

  module _ {w : World S} {r : Registry S} (inv : Inv w r) where
    schema-agrees :
        (typ : DriverType)
        → schema_reply (config_schema_ref w.entries typ w.memory) ≡ config_schema (some r) typ
    schema-agrees typ = elim (Option-cases (lookup typ w.entries)) [
      | inl nothing ↦
          let missed = Found-none (lookup-Match (Keeps w.memory w.held) typ inv.entries) nothing in
          rw (config_schema_ref-missing w.entries typ w.memory nothing)
            (sym (config_schema-missing r typ missed))
      | inr (e, here) ↦
          let (v, there, kept) =
            Found-some e (lookup-Match (Keeps w.memory w.held) typ inv.entries) here in
          let held : view_schema w.memory e.descriptor.config_schema ≡ v.descriptor.config_schema =
            cc (kept.equal) in
          rw (config_schema_ref-found w.entries typ w.memory e here) (
            ap some (clone_schema_ref-view e.descriptor.config_schema w.memory ∙ held)
            ∙ sym (config_schema-found r typ v there))
    ]

    registering-agrees :
        (d : DefinitionRef S)
        → outcome (register_ref json d w.entries w.memory)
          ≡ outcome (register json (some r) (some (definition_at w.memory d)))
    registering-agrees d = elim (register-SameOutcome json d inv) [
      | refused e p q ↦ rw (p, q) refl
      | accepted p q ↦ rw (p, q) refl
    ]

    unwritten :
        (e : Event S)
        → IsCall e
        → allowed e w ≡ true
        → (a : ℕ) → w.held a ≡ true
        → (perform json e w).memory.cell a ≡ w.memory.cell a
    unfolding perform
    unwritten (allocates b) call own a h = absurd call
    unwritten (writes p b) call own a h = absurd call
    unwritten (unregisters typ) call own a h = refl
    unwritten describes call own a h = (Inv-Listed inv).grows.same a (inv.bounded a h)
    unwritten (asks typ) call own a h = elim (Option-cases (lookup typ w.entries)) [
      | inl nothing ↦ rw (config_schema_ref-missing w.entries typ w.memory nothing) refl
      | inr (e, here) ↦ rw (config_schema_ref-found w.entries typ w.memory e here) (
          (clone_schema_ref-Copied e.descriptor.config_schema w.memory).grows.same a
            (inv.bounded a h))
    ]
    unwritten (registers d) call own a h = elim (register-SameOutcome json d inv) [
      | refused e p q ↦ rw p refl
      | accepted p q ↦ rw p ((copied json d inv own).grows.same a (inv.bounded a h))
    ]

    Inv-Agrees : Agrees json w r
    unfolding unregister
    Inv-Agrees = record {
      described = (Inv-Listed inv).equal;
      schema = schema-agrees;
      registering = registering-agrees;
      unregistering = λ typ. contains-Match (Keeps w.memory w.held) typ inv.entries;
      unwritten = unwritten;
    }

  -- Let an application allocate arrays, write any array that it holds and call the methods of a new
  -- registry, in any order, and give a registry of values the same calls, in which a descriptor is
  -- what it read as when it was registered. Then the next Descriptors and ConfigSchema of the two
  -- return the same, Register succeeds on both or fails with the same error, Unregister reports the
  -- same, and no call writes an array that the application holds.
  pub play-Agrees :
      (events : List (Event S))
      → Agrees json (play json events (new_world, [])).0 (play json events (new_world, [])).1
  play-Agrees events = Inv-Agrees (play-Inv events (new_world, []) new_world-Inv)
