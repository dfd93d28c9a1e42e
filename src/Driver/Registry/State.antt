-- ===== src/Driver/Registry/State.antt =====
-- Registration as steps on the map: what each method does to a later lookup, and what every registry
-- that the methods build satisfies.
use go_benefit.Prelude.{
  ◌≡◌, refl, ◌↔◌, inl, inr, Option, some, none, List, [], ◌∷◌, map, arith, if◌then◌else◌,
  Bool-cases, ◌==◌, eq_iff, is_some,
}
use mathlib.Core.Path.{subst}
use go_benefit.Text.{text_eq}
use go_benefit.Dict.{lookup, insert, delete, lookup-insert, lookup-delete}
use go_benefit.Errors.{ok}
use go_benefit.Core.Operation.{OperationCapability}
use go_benefit.Core.Info.{DriverType}
use go_benefit.Core.Config.{Json, ConfigSchema}
use go_benefit.Core.Driver.{DriverDescriptor, DriverDefinition, validate_descriptor}
use go_benefit.Driver.Registry.{
  Registry, RegisteredDriverDefinition, clone_descriptor, clone_capabilities, clone_schema,
  register, unregister, find,
}

map_id {ℓ} : {A : Type ℓ} (xs : List A) → map (λ x. x) xs ≡ xs
map_id [] = refl
map_id (x ∷ xs) = cc (map_id xs)

clone_capabilities_lem : (cs : List OperationCapability) → clone_capabilities cs ≡ cs
unfolding clone_capabilities
clone_capabilities_lem [] = refl
clone_capabilities_lem (c ∷ cs) = ground (arith, map_id c.modes, clone_capabilities_lem cs)

pub clone_schema_lem : (s : ConfigSchema) → clone_schema s ≡ s
unfolding clone_schema
clone_schema_lem s = ground (arith, map_id s.schema)

pub clone_descriptor_lem : (d : DriverDescriptor) → clone_descriptor d ≡ d
unfolding clone_descriptor clone_schema
clone_descriptor_lem d =
    ground (arith, clone_capabilities_lem d.operations, map_id d.config_schema.schema)

module _ {S : Type 0} where
  abbrev pub entry : DriverDefinition S → RegisteredDriverDefinition S
  entry definition = record { definition = definition; descriptor = definition.descriptor }

  -- What a successful registration needs, and what it leaves.
  pub record Registration (json : Json) (r : Option (Registry S)) (v : Option (DriverDefinition S))
      (after : Registry S) : Type 0 where
    pub before : Registry S
    pub definition : DriverDefinition S
    pub not_nil : r ≡ some before
    pub given : v ≡ some definition
    pub valid : validate_descriptor json definition.descriptor ≡ ok tt
    pub fresh : lookup definition.descriptor.driver_type before ≡ none
    pub result : after ≡ insert definition.descriptor.driver_type (entry definition) before
    pub stored :
        (k : DriverType)
        → find (some after) k
          ≡ (if definition.descriptor.driver_type == k then some (entry definition) else find r k)

  pub register-some :
      (json : Json) (before : Registry S) (d : DriverDefinition S) (after : Registry S)
      → register json (some before) (some d) ≡ ok after
      → (validate_descriptor json d.descriptor ≡ ok tt)
        × (lookup d.descriptor.driver_type before ≡ none)
        × (after ≡ insert d.descriptor.driver_type (entry d) before)
  unfolding register
  register-some json before d after h = ground (arith, clone_descriptor_lem d.descriptor)

  register-Registration :
      (json : Json) (r : Option (Registry S)) (v : Option (DriverDefinition S)) (after : Registry S)
      → register json r v ≡ ok after
      → Registration json r v after
  unfolding find
  register-Registration json none v after h = absurd (unfold register in cc)
  register-Registration json (some before) none after h = absurd (unfold register in cc)
  register-Registration json (some before) (some d) after h =
      let (valid, fresh, result) = register-some json before d after h in
      record {
        before = before;
        definition = d;
        not_nil = refl;
        given = refl;
        valid = valid;
        fresh = fresh;
        result = result;
        stored = λ k. rw (result, lookup-insert d.descriptor.driver_type k (entry d) before);
      }

  Registration-register :
      (json : Json) (r : Option (Registry S)) (v : Option (DriverDefinition S)) (after : Registry S)
      → Registration json r v after
      → register json r v ≡ ok after
  unfolding register
  Registration-register json none v after h = absurd (ground (arith, h.not_nil))
  Registration-register json (some m) none after h = absurd (ground (arith, h.given))
  Registration-register json (some m) (some d) after h =
      ground
        (arith, h.not_nil, h.given, h.valid, h.fresh, h.result, clone_descriptor_lem d.descriptor)

  -- Register succeeds exactly on a registry that is not nil, for a definition that is not nil, whose
  -- descriptor is valid and whose driver type is not registered. Then a lookup of the type finds the
  -- definition with its descriptor, and a lookup of any other type answers as before.
  pub register-Registration_iff :
      (json : Json) (r : Option (Registry S)) (v : Option (DriverDefinition S)) (after : Registry S)
      → (register json r v ≡ ok after) ↔ Registration json r v after
  register-Registration_iff json r v after =
      (register-Registration json r v after, Registration-register json r v after)

  -- Unregister reports whether the type was registered; afterwards a lookup of it finds nothing and
  -- a lookup of any other type answers as before.
  pub unregister-find :
      (r : Option (Registry S)) (typ k : DriverType)
      → ((unregister r typ).1 ≡ is_some (find r typ))
        × (find (unregister r typ).0 k ≡ (if typ == k then none else find r k))
  unfolding unregister find
  unregister-find none typ k = ground arith
  unregister-find (some m) typ k = ground (arith, lookup-delete typ k m)

  -- The calls that change a registry, in any order and by any number of goroutines: each is atomic.
  pub data Step (json : Json) (r : Registry S) : Registry S → Type 0 where
    registered :
        {after : Registry S} (v : Option (DriverDefinition S))
        → register json (some r) v ≡ ok after
        → Step json r after
    removed :
        {after : Registry S} (typ : DriverType)
        → (unregister (some r) typ).0 ≡ some after
        → Step json r after

  pub data Reach (json : Json) : Registry S → Type 0 where
    start : Reach json []
    next : {r after : Registry S} → Reach json r → Step json r after → Reach json after

  -- What a lookup finds: a valid descriptor, that of the definition, under its own driver type.
  pub record IsEntry (json : Json) (k : DriverType) (e : RegisteredDriverDefinition S)
      : Type 0 where
    pub own_type : e.descriptor.driver_type ≡ k
    pub snapshot : e.descriptor ≡ e.definition.descriptor
    pub valid : validate_descriptor json e.descriptor ≡ ok tt

  abbrev pub HasEntries : Json → Registry S → Type 0
  HasEntries json r =
      (k : DriverType) (e : RegisteredDriverDefinition S)
      → find (some r) k ≡ some e
      → IsEntry json k e

  insert-HasEntries :
      (json : Json) (r : Registry S) (d : DriverDefinition S)
      → validate_descriptor json d.descriptor ≡ ok tt
      → HasEntries json r
      → HasEntries json (insert d.descriptor.driver_type (entry d) r)
  unfolding find
  insert-HasEntries json r d valid h k e found = elim (Bool-cases (d.descriptor.driver_type == k)) [
    | inl same ↦
        let here : entry d ≡ e =
          ground (arith, lookup-insert d.descriptor.driver_type k (entry d) r) in
        subst (IsEntry json k) here
          (record { own_type = (eq_iff _ _).0 same; snapshot = refl; valid = valid })
    | inr other ↦ h k e (ground (arith, lookup-insert d.descriptor.driver_type k (entry d) r))
  ]

  Step-HasEntries :
      (json : Json) {r after : Registry S}
      → Step json r after
      → HasEntries json r
      → HasEntries json after
  unfolding unregister find
  Step-HasEntries json {r} (registered v e) h =
      let k = register-Registration json (some r) v _ e in
      let (valid, fresh, result) = register-some json r k.definition _ (rw k.given at e) in
      rw result (insert-HasEntries json r k.definition valid h)
  Step-HasEntries json {r} {after} (removed typ e) h =
      let same : delete typ r ≡ after = ground arith in
      subst (HasEntries json) same
        (λ k found_entry found. h k found_entry (ground (arith, lookup-delete typ k r)))

  -- In every registry that calls of Register and Unregister build from NewRegistry, in any order, a
  -- lookup of a driver type finds only a definition with a valid descriptor of that type.
  pub Reach-HasEntries : (json : Json) {r : Registry S} → Reach json r → HasEntries json r
  unfolding find lookup
  Reach-HasEntries json start = λ k e found. absurd (cc)
  Reach-HasEntries json (next reach step) = Step-HasEntries json step (Reach-HasEntries json reach)
