-- ===== src/Driver/Registry/Shared/World.antt =====
-- An application that shares its memory with a driver registry: what it can do, and the registry of
-- values that goes along with it.
use go_benefit.Prelude.{
  ℕ, Bool, true, false, ◌&&◌, ◌||◌, Option, none, some, List, [], ◌∷◌, any, all, ◌==◌, nat_eq,
  update, if◌then◌else◌,
}
use go_benefit.Text.{text_eq}
use go_benefit.Memory.{alloc, store, Slice, nil, part, elements}
use go_benefit.Dict.{delete}
use go_benefit.Errors.{Result, ok, err}
use go_benefit.Core.Info.{DriverType}
use go_benefit.Core.Config.{Json}
use go_benefit.Driver.Registry.{Registry, register}
use go_benefit.Driver.Registry.Shared.{
  SchemaRef, DescriptorRef, Block, bytes, Store, capabilities_in, DefinitionRef, RegistryRef,
  definition_at, register_ref, descriptors_ref, config_schema_ref,
}

-- The arrays that a value refers to.
abbrev pub slice_refers : Slice → ℕ → Bool
slice_refers nil a = false
slice_refers (part array offset count) a = array == a

abbrev pub refers : Store → DescriptorRef → ℕ → Bool
refers m d a =
    slice_refers d.operations a
    || slice_refers d.config_schema.schema a
    || any (λ c. slice_refers c.modes a) (elements (capabilities_in m) d.operations)

abbrev pub schema_refers : Option SchemaRef → ℕ → Bool
schema_refers none a = false
schema_refers (some s) a = slice_refers s.schema a

-- All of these arrays pass a test.
abbrev pub slice_within : (ℕ → Bool) → Slice → Bool
slice_within p nil = true
slice_within p (part array offset count) = p array

abbrev pub within : (ℕ → Bool) → Store → DescriptorRef → Bool
within p m d =
    slice_within p d.operations
    && slice_within p d.config_schema.schema
    && all (λ c. slice_within p c.modes) (elements (capabilities_in m) d.operations)

-- `held` are the arrays that the application has made or has been given a slice of.
pub record World (S : Type 0) : Type 0 where
  pub memory : Store
  pub held : ℕ → Bool
  pub entries : RegistryRef S

abbrev pub new_world : {S : Type 0} → World S
new_world = record {
  memory = record { next = 0; cell = λ a. bytes [] };
  held = λ a. false;
  entries = [];
}

-- The application makes an array, writes one, or calls a method of the registry.
pub data Event (S : Type 0) : Type 0 where
  allocates : Block → Event S
  writes : ℕ → Block → Event S
  registers : DefinitionRef S → Event S
  unregisters : DriverType → Event S
  describes : Event S
  asks : DriverType → Event S

module _ {S : Type 0} where
  -- Arrays are reached only through slices that the application holds.
  abbrev pub allowed : Event S → World S → Bool
  allowed (writes a b) w = w.held a
  allowed (registers d) w = within w.held w.memory d.descriptor
  allowed _ w = true

  abbrev pub registered : Result (RegistryRef S × Store) → World S → World S
  registered (ok (entries, memory)) w = record w { entries = entries; memory = memory }
  registered (err e) w = w

  unfoldable pub perform : Json → Event S → World S → World S
  perform json (allocates b) w = record w {
    memory = (alloc b w.memory).1;
    held = update w.memory.next true w.held;
  }
  perform json (writes a b) w = record w { memory = store a b w.memory }
  perform json (registers d) w = registered (register_ref json d w.entries w.memory) w
  perform json (unregisters typ) w = record w { entries = delete typ w.entries }
  perform json describes w =
      let (copies, after) = descriptors_ref w.entries w.memory in
      record w { memory = after; held = λ a. any (λ d. refers after d a) copies || w.held a }
  perform json (asks typ) w =
      let (copy, after) = config_schema_ref w.entries typ w.memory in
      record w { memory = after; held = λ a. schema_refers copy a || w.held a }

  abbrev pub latest : Result (Registry S) → Registry S → Registry S
  latest (ok after) r = after
  latest (err e) r = r

  -- The registry of values: a descriptor is what it reads as when it is registered.
  unfoldable pub follow : Json → Event S → Store → Registry S → Registry S
  follow json (registers d) m r = latest (register json (some r) (some (definition_at m d))) r
  follow json (unregisters typ) m r = delete typ r
  follow json _ m r = r

  -- An event that the application cannot bring about leaves everything as it is.
  abbrev pub turn : Json → Event S → World S × Registry S → World S × Registry S
  turn json e (w, r) = if allowed e w then (perform json e w, follow json e w.memory r) else (w, r)

  unfoldable pub play : Json → List (Event S) → World S × Registry S → World S × Registry S
  play json [] state = state
  play json (e ∷ events) state = play json events (turn json e state)
