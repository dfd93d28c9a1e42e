-- ===== src/Driver/Registry/Shared.antt =====
-- driver/registry.go and ConfigSchema.Clone of driver_config.go over a memory that the registry and
-- the application share. The slices of a descriptor refer to arrays: the operations, the modes of
-- each, and the schema. The registry of the parent module has their elements in their place.
pub mod Frame
pub mod Clones
pub mod World
pub mod Refers
pub mod Replies
pub mod Invariant
pub mod Steps
pub mod Isolation
use go_benefit.Prelude.{
  ℕ, Bool, true, false, Option, none, some, List, [], ◌∷◌, ◌++◌, map, length, ◌==◌,
}
use go_benefit.Text.{Text, text_eq}
use go_benefit.Text.Order.{sort_by}
use go_benefit.Memory.{Memory, alloc, Slice, nil, part, elements}
use go_benefit.Dict.{Dict, lookup, contains, insert}
use go_benefit.Errors.{
  Check, Result, ok, err, ◌>>=◌, ◌>>◌, fail_if, errorf, errorf_two, sentinel,
  err_invalid_definition, driver_err_already_registered,
}
use go_benefit.Core.Operation.{Operation, OperationMode, OperationCapability}
use go_benefit.Core.Info.{DriverType}
use go_benefit.Core.Config.{Json, ConfigSchema, wrap_error}
use go_benefit.Core.Driver.{
  TypeDescriptor, DriverDescriptor, Driver, DriverDefinition, validate_descriptor,
}

pub record CapabilityRef : Type 0 where
  pub operation : Operation
  pub modes : Slice

pub record SchemaRef : Type 0 where
  pub optional : Bool
  pub revision : Text
  pub schema : Slice

pub record DescriptorRef : Type 0 where
  pub name : Text
  pub driver_type : DriverType
  pub kind : TypeDescriptor
  pub provider : TypeDescriptor
  pub operations : Slice
  pub config_schema : SchemaRef

-- An array of bytes, of modes or of capabilities.
pub data Block : Type 0 where
  bytes : Text → Block
  modes : List OperationMode → Block
  capabilities : List CapabilityRef → Block

abbrev pub Store : Type 0
Store = Memory Block

module _ (m : Store) where
  -- The elements of an array, at the type of the slice that refers to it.
  abbrev pub bytes_in : ℕ → Text
  bytes_in a = elim (m.cell a) [ bytes b ↦ b | _ ↦ [] ]

  abbrev pub modes_in : ℕ → List OperationMode
  modes_in a = elim (m.cell a) [ modes ms ↦ ms | _ ↦ [] ]

  abbrev pub capabilities_in : ℕ → List CapabilityRef
  capabilities_in a = elim (m.cell a) [ capabilities cs ↦ cs | _ ↦ [] ]

  -- What the slices hold.
  abbrev pub view_capability : CapabilityRef → OperationCapability
  view_capability c = record { operation = c.operation; modes = elements modes_in c.modes }

  abbrev pub view_schema : SchemaRef → ConfigSchema
  view_schema s = record {
    optional = s.optional;
    revision = s.revision;
    schema = elements bytes_in s.schema;
  }

  abbrev pub view : DescriptorRef → DriverDescriptor
  view d = record {
    name = d.name;
    driver_type = d.driver_type;
    kind = d.kind;
    provider = d.provider;
    operations = map view_capability (elements capabilities_in d.operations);
    config_schema = view_schema d.config_schema;
  }

-- bytes.Clone: nil for nil, and else a new array.
unfoldable pub clone_bytes : Slice → Store → Slice × Store
clone_bytes nil m = (nil, m)
clone_bytes (part a offset count) m =
    let b = elements (bytes_in m) (part a offset count) in
    let (copy, after) = alloc (bytes b) m in (part copy 0 (length b), after)

-- append([]OperationMode(nil), ms...): nil where there is nothing to append.
unfoldable pub append_to_nil : List OperationMode → Store → Slice × Store
append_to_nil [] m = (nil, m)
append_to_nil (x ∷ xs) m =
    let (copy, after) = alloc (modes (x ∷ xs)) m in (part copy 0 (length (x ∷ xs)), after)

-- The loop of cloneOperationCapabilities.
unfoldable pub clone_each : List CapabilityRef → Store → List CapabilityRef × Store
unfolding append_to_nil
clone_each [] m = ([], m)
clone_each (c ∷ cs) m =
    let (copied, m1) = append_to_nil (elements (modes_in m) c.modes) m in
    let (rest, m2) = clone_each cs m1 in
    (record { operation = c.operation; modes = copied } ∷ rest, m2)

-- cloneOperationCapabilities; the array that make returns is allocated with its final elements.
unfoldable pub clone_capability_refs : Slice → Store → Slice × Store
unfolding clone_each
clone_capability_refs s m =
    let (copies, m1) = clone_each (elements (capabilities_in m) s) m in
    let (copy, m2) = alloc (capabilities copies) m1 in (part copy 0 (length copies), m2)

-- ConfigSchema.Clone
unfoldable pub clone_schema_ref : SchemaRef → Store → SchemaRef × Store
unfolding clone_bytes
clone_schema_ref s m =
    let (copy, after) = clone_bytes s.schema m in (record s { schema = copy }, after)

-- cloneDriverDescriptor
unfoldable pub clone_descriptor_ref : DescriptorRef → Store → DescriptorRef × Store
unfolding clone_capability_refs clone_schema_ref
clone_descriptor_ref d m =
    let (operations, m1) = clone_capability_refs d.operations m in
    let (config_schema, m2) = clone_schema_ref d.config_schema m1 in
    (record d { operations = operations; config_schema = config_schema }, m2)

-- A definition of the application: the descriptor that it returns may refer to its own arrays.
pub record DefinitionRef (S : Type 0) : Type 0 where
  pub descriptor : DescriptorRef
  pub validate_config : Text → Check
  pub compile_config : Text → Result (Option (Option (Driver S)))

pub record EntryRef (S : Type 0) : Type 0 where
  pub definition : DefinitionRef S
  pub descriptor : DescriptorRef

abbrev pub RegistryRef : Type 0 → Type 0
RegistryRef S = Dict DriverType (EntryRef S)

module _ {S : Type 0} where
  -- A definition as it reads now.
  abbrev pub definition_at : Store → DefinitionRef S → DriverDefinition S
  definition_at m d = record {
    descriptor = view m d.descriptor;
    validate_config = d.validate_config;
    compile_config = d.compile_config;
  }

  -- Register on a registry and a definition that are not nil.
  unfoldable pub register_ref :
      Json → DefinitionRef S → RegistryRef S → Store → Result (RegistryRef S × Store)
  register_ref json definition entries m = do
    wrap_error (errorf_two "%w: driver %q: %w" (sentinel err_invalid_definition))
        (validate_descriptor json (view m definition.descriptor))
    fail_if (contains definition.descriptor.driver_type entries)
        (errorf "%w: %q" (sentinel driver_err_already_registered))
    let (snapshot, after) = clone_descriptor_ref definition.descriptor m
    ok (
      insert definition.descriptor.driver_type
          (record { definition = definition; descriptor = snapshot }) entries,
      after,
    )

  -- The loop of getDescriptors.
  unfoldable pub clone_entries : RegistryRef S → Store → List DescriptorRef × Store
  clone_entries [] m = ([], m)
  clone_entries ((k, e) ∷ entries) m =
      let (copy, m1) = clone_descriptor_ref e.descriptor m in
      let (rest, m2) = clone_entries entries m1 in (copy ∷ rest, m2)

  -- Descriptors
  unfoldable pub descriptors_ref : RegistryRef S → Store → List DescriptorRef × Store
  descriptors_ref entries m =
      let (copies, after) = clone_entries entries m in (sort_by (λ d. d.driver_type) copies, after)

  -- ConfigSchema
  unfoldable pub config_schema_ref : RegistryRef S → DriverType → Store → Option SchemaRef × Store
  config_schema_ref entries driver_type m = elim (lookup driver_type entries) [
    | none ↦ (none, m)
    | some e ↦
        let (copy, after) = clone_schema_ref e.descriptor.config_schema m in (some copy, after)
  ]
