-- ===== src/Driver/Registry/Binding.antt =====
-- Validating configurations and binding drivers.
use go_benefit.Prelude.{
  ◌≡◌, ◌↔◌, ◌⊎◌, inl, inr, true, Option, some, none, arith, Option-cases, eq_iff, is_some, ◌∙◌,
}
use go_benefit.Text.{Text, text_eq}
use go_benefit.Errors.{
  Error, ok, err, is_error, err_not_registered, err_invalid_definition, err_invalid_driver_config,
}
use go_benefit.Errors.Laws.{Result-cases}
use go_benefit.Core.Operation.{Operation, get_capability}
use go_benefit.Core.Info.{DriverType}
use go_benefit.Core.Config.{Json, validate_driver_config}
use go_benefit.Core.Config.Failures.{validate_driver_config-error}
use go_benefit.Core.Driver.{Driver}
use go_benefit.Driver.Registry.{
  Registry, RegisteredDriverDefinition, find, validate_config, build, bind,
}
use go_benefit.Driver.Registry.State.{Reach, Reach-HasEntries}

module _ {S : Type 0} (json : Json) (r : Option (Registry S)) (typ : DriverType)
    (config : Text) where
  -- A driver that Bind may return.
  pub record Binds (driver : Driver S) : Type 0 where
    pub registered : RegisteredDriverDefinition S
    pub found : find r typ ≡ some registered
    pub config_valid : validate_driver_config json config ≡ ok tt
    pub compiled : registered.definition.compile_config config ≡ ok (some (some driver))
    pub same_type : driver.descriptor.driver_type ≡ registered.descriptor.driver_type
    pub reverser :
        is_some (get_capability driver.redescribed.operations Operation.reverse) ≡ true
        → is_some driver.reverse ≡ true

  build_iff :
      (registered : RegisteredDriverDefinition S) (factory : Option (Option (Driver S)))
      (driver : Driver S)
      → (build registered factory ≡ ok driver) ↔ (
          (factory ≡ some (some driver))
          × (driver.descriptor.driver_type ≡ registered.descriptor.driver_type)
          × (is_some (get_capability driver.redescribed.operations Operation.reverse) ≡ true
              → is_some driver.reverse ≡ true))
  unfolding build
  build_iff registered none driver = ground arith
  build_iff registered (some none) driver = ground arith
  build_iff registered (some (some d)) driver =
      ground (arith, eq_iff d.descriptor.driver_type registered.descriptor.driver_type)

  -- Bind returns a driver exactly when the type is registered, the configuration well-formed, and the
  -- definition compiles it to a factory of that driver, which has the registered type and implements
  -- Reverse if its Descriptor, when it is called again, declares it.
  pub bind-eq-ok_iff : (driver : Driver S) → (bind json r typ config ≡ ok driver) ↔ Binds driver
  unfolding bind
  bind-eq-ok_iff driver = elim (Option-cases (find r typ)) [
    | inl missing ↦ (λ h. absurd (ground arith), λ h. ground (arith, h.found))
    | inr (registered, found) ↦ elim (Result-cases (registered.definition.compile_config config)) [
      | inl (e, failed) ↦ (λ h. absurd (ground arith), λ h. ground (arith, h.found, h.compiled))
      | inr (factory, compiled) ↦ (
        λ h. record {
          registered = registered;
          found = found;
          config_valid = ground arith;
          compiled = ground (arith, build_iff registered factory driver);
          same_type = ground (arith, build_iff registered factory driver);
          reverser = ground (arith, build_iff registered factory driver);
        },
        λ h. ground (
          arith,
          h.found,
          h.compiled,
          h.config_valid,
          h.same_type,
          h.reverser,
          build_iff registered factory driver,
        ),
      )
    ]
  ]

  build-error :
      (registered : RegisteredDriverDefinition S) (factory : Option (Option (Driver S))) (e : Error)
      → build registered factory ≡ err e
      → is_error e err_invalid_definition ≡ true
  unfolding build is_error
  build-error registered none e h = ground arith
  build-error registered (some none) e h = ground arith
  build-error registered (some (some d)) e h = ground arith

  -- Every error of Bind matches ErrNotRegistered, ErrInvalidDriverConfig or ErrInvalidDefinition.
  pub bind-error :
      (e : Error)
      → bind json r typ config ≡ err e
      → (is_error e err_not_registered ≡ true)
        ⊎ (is_error e err_invalid_driver_config ≡ true)
        ⊎ (is_error e err_invalid_definition ≡ true)
  unfolding bind is_error
  bind-error e h = elim (Option-cases (find r typ)) [
    | inl missing ↦ inl (ground arith)
    | inr (registered, found) ↦ elim (Result-cases (validate_driver_config json config)) [
      | inl (f, rejected) ↦
          inr (inl (ground (arith, validate_driver_config-error json config f rejected)))
      | inr (u, accepted) ↦ elim (Result-cases (registered.definition.compile_config config)) [
        | inl (f, failed) ↦ inr (inl (ground arith))
        | inr (factory, compiled) ↦ inr (inr (ground (arith, build-error registered factory e)))
      ]
    ]
  ]

  -- ValidateConfig of a registered definition accepts a configuration exactly where CompileConfig
  -- does. The interface asks it of every definition.
  abbrev pub Agrees : Type 0
  Agrees =
      (registered : RegisteredDriverDefinition S)
      → find r typ ≡ some registered
      → (registered.definition.validate_config config ≡ ok tt)
        ↔ ((f : Option (Option (Driver S))) × (registered.definition.compile_config config ≡ ok f))

  -- Where the two methods of the definition agree, a configuration with which Bind returns a driver
  -- is one that ValidateConfig accepts.
  pub validate_config_of_bind :
      (driver : Driver S)
      → Agrees
      → bind json r typ config ≡ ok driver
      → validate_config json r typ config ≡ ok tt
  unfolding validate_config
  validate_config_of_bind driver agrees h =
      let k = (bind-eq-ok_iff driver).0 h in
      ground (
        arith,
        k.found,
        k.config_valid,
        (agrees k.registered k.found).1 (some (some driver), k.compiled),
      )

  -- Where the two methods agree, Bind fails on a configuration that ValidateConfig accepts only by
  -- ErrInvalidDefinition.
  pub bind-error_of_valid :
      (e : Error)
      → Agrees
      → validate_config json r typ config ≡ ok tt
      → bind json r typ config ≡ err e
      → is_error e err_invalid_definition ≡ true
  unfolding bind validate_config
  bind-error_of_valid e agrees v h = elim (Option-cases (find r typ)) [
    | inl missing ↦ absurd (ground arith)
    | inr (registered, found) ↦
        let (factory, compiled) = (agrees registered found).0 (ground arith) in
        ground (arith, build-error registered factory e)
  ]

module _ {S : Type 0} (json : Json) {r : Registry S} (typ : DriverType) (config : Text) where
  -- From a registry built by its methods, Bind returns drivers of the requested type alone.
  pub bind-type :
      (driver : Driver S)
      → Reach json r
      → bind json (some r) typ config ≡ ok driver
      → driver.descriptor.driver_type ≡ typ
  bind-type driver reach h =
      let k = (bind-eq-ok_iff json (some r) typ config driver).0 h in
      k.same_type ∙ (Reach-HasEntries json reach typ k.registered k.found).own_type
