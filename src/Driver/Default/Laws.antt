-- ===== src/Driver/Default/Laws.antt =====
-- The registry of the package under Register and MustRegister, and Bind on it.
use go_benefit.Prelude.{◌≡◌, ◌↔◌, inl, inr, true, Option, some, arith, eq_iff, is_some}
use go_benefit.Text.{Text, text_eq}
use go_benefit.Errors.{ok}
use go_benefit.Errors.Laws.{Result-cases}
use go_benefit.Core.Operation.{Operation, get_capability}
use go_benefit.Core.Info.{DriverType}
use go_benefit.Core.Config.{Json, validate_driver_config}
use go_benefit.Core.Driver.{Driver, DriverDefinition}
use go_benefit.Driver.Registry.{Registry, RegisteredDriverDefinition, find}
use go_benefit.Driver.Registry.State.{register-Registration_iff, entry}
use go_benefit.Driver.Registry.Binding.{bind-eq-ok_iff}
use go_benefit.Driver.Default.{register, must_register, bind}

module _ {S : Type 0} (json : Json) where
  -- What calls of Register and MustRegister make of the registry of the package.
  pub data Later (before : Registry S) : Registry S → Type 0 where
    unchanged : Later before before
    registered :
        {r after : Registry S} (v : Option (DriverDefinition S))
        → Later before r
        → register json r v ≡ ok after
        → Later before after
    required :
        {r after : Registry S} (v : Option (DriverDefinition S))
        → Later before r
        → must_register json r v ≡ some after
        → Later before after

  must_register-registers :
      (r : Registry S) (v : Option (DriverDefinition S)) (after : Registry S)
      → must_register json r v ≡ some after
      → register json r v ≡ ok after
  unfolding must_register
  must_register-registers r v after h = elim (Result-cases (register json r v)) [
    | inl (e, refused) ↦ absurd (ground arith)
    | inr (after, accepted) ↦ ground arith
  ]

  register-keeps :
      (r : Registry S) (v : Option (DriverDefinition S)) (after : Registry S) (k : DriverType)
      (e : RegisteredDriverDefinition S)
      → register json r v ≡ ok after
      → find (some r) k ≡ some e
      → find (some after) k ≡ some e
  unfolding register find
  register-keeps r v after k e h found =
      let s = (register-Registration_iff json (some r) v after).0 h in
      ground (arith, s.stored k, eq_iff s.definition.descriptor.driver_type k, s.fresh, s.not_nil)

  Later-find :
      {before after : Registry S}
      → Later before after
      → (k : DriverType) (e : RegisteredDriverDefinition S) → find (some before) k ≡ some e
      → find (some after) k ≡ some e
  Later-find unchanged k e found = found
  Later-find (registered v later h) k e found =
      register-keeps _ v _ k e h (Later-find later k e found)
  Later-find (required v later h) k e found =
      register-keeps _ v _ k e (must_register-registers _ v _ h) (Later-find later k e found)

  must_register-find :
      (before : Registry S) (definition : DriverDefinition S) (after : Registry S)
      → must_register json before (some definition) ≡ some after
      → find (some after) definition.descriptor.driver_type ≡ some (entry definition)
  unfolding register
  must_register-find before definition after h =
      let typ = definition.descriptor.driver_type in
      let s =
        (register-Registration_iff json (some before) (some definition) after).0
          (must_register-registers before (some definition) after h) in
      ground (arith, s.stored typ, s.given, eq_iff typ typ)

  -- Once MustRegister has returned for a definition, and whatever else Register and MustRegister add
  -- later, Bind of its driver type returns a driver exactly where the configuration is well-formed and the
  -- definition compiles it to a factory of that driver, which has the type of the definition and
  -- implements Reverse if its Descriptor, when it is called again, declares it.
  pub must_register-bind_iff :
      (before after last : Registry S) (definition : DriverDefinition S) (config : Text)
      (driver : Driver S)
      → must_register json before (some definition) ≡ some after
      → Later after last
      → (bind json last definition.descriptor.driver_type config ≡ ok driver) ↔ (
          (validate_driver_config json config ≡ ok tt)
          × (definition.compile_config config ≡ ok (some (some driver)))
          × (driver.descriptor.driver_type ≡ definition.descriptor.driver_type)
          × (is_some (get_capability driver.redescribed.operations Operation.reverse) ≡ true
              → is_some driver.reverse ≡ true))
  unfolding bind
  must_register-bind_iff before after last definition config driver h later =
      let typ = definition.descriptor.driver_type in
      let found =
        Later-find later typ (entry definition) (must_register-find before definition after h) in
      (
        λ b.
            let k = (bind-eq-ok_iff json (some last) typ config driver).0 b in
            let same : k.registered ≡ entry definition = ground (arith, k.found) in
            (k.config_valid, ground (arith, k.compiled), ground (arith, k.same_type), k.reverser),
        λ (valid, compiled, same, reverser).
            (bind-eq-ok_iff json (some last) typ config driver).1 (record {
              registered = entry definition;
              found = found;
              config_valid = valid;
              compiled = compiled;
              same_type = same;
              reverser = reverser;
            }),
      )
