-- ===== src/Tests/Shared.antt =====
-- An application that overwrites the arrays of a descriptor after it has registered it.
use go_benefit.Prelude.{ℕ, ◌≡◌, ◌≢◌, refl, true, false, List, [], ◌∷◌, map}
use go_benefit.Text.{Text, bytes}
use go_benefit.Memory.{part}
use go_benefit.Core.Operation.{Operation, OperationMode}
use go_benefit.Core.Driver.{DriverDescriptor}
use go_benefit.Driver.Registry.Shared.{
  CapabilityRef, DescriptorRef, Block, DefinitionRef, view, clone_descriptor_ref, clone_entries,
  register_ref, descriptors_ref,
}
use go_benefit.Driver.Registry.Shared.World.{
  World, new_world, Event, allocates, writes, registers, describes, perform, follow, play,
}
use go_benefit.Driver.Registry.Shared.Isolation.{Agrees, play-Agrees}
use go_benefit.Tests.Driver.{json, descriptor, definition}

abbrev reverse_ref : CapabilityRef
reverse_ref = record { operation = Operation.reverse; modes = part 1 0 1 }

abbrev coupon_ref : DescriptorRef
coupon_ref = record {
  name = descriptor.name;
  driver_type = descriptor.driver_type;
  kind = descriptor.kind;
  provider = descriptor.provider;
  operations = part 2 0 1;
  config_schema = record { optional = true; revision = bytes "1"; schema = part 0 0 2 };
}

abbrev coupon : DefinitionRef ℕ
coupon = record {
  descriptor = coupon_ref;
  validate_config = definition.validate_config;
  compile_config = definition.compile_config;
}

abbrev events : List (Event ℕ)
events =
    allocates (Block.bytes (bytes "{}"))
    ∷ allocates (Block.modes (OperationMode.full ∷ []))
    ∷ allocates (Block.capabilities (reverse_ref ∷ []))
    ∷ registers coupon
    ∷ writes 0 (Block.bytes (bytes "[]"))
    ∷ writes 1 (Block.modes (OperationMode.partial ∷ []))
    ∷ describes
    -- The last array of the reply.
    ∷ writes 8 (Block.bytes (bytes "!!"))
    ∷ []

abbrev ended : World ℕ
ended = (play json events (new_world, [])).0

abbrev as_registered : DriverDescriptor
as_registered = record descriptor {
  operations = record { operation = Operation.reverse; modes = OperationMode.full ∷ [] } ∷ [];
}

play-Agrees_example :
    Agrees json (play json events (new_world, [])).0 (play json events (new_world, [])).1
play-Agrees_example = play-Agrees json events

-- The array of the schema in the reply is the application's, and that of the registry is not.
held_run : (ended.held 8 ≡ true) × (ended.held 5 ≡ false)
unfolding play perform follow register_ref clone_descriptor_ref clone_entries descriptors_ref
    go_benefit.Text.Order.sort_by go_benefit.Dict.insert go_benefit.Dict.lookup
    go_benefit.Core.Driver.validate_descriptor go_benefit.Core.Info.validate_driver_type
    go_benefit.Core.Identifier.validate_namespaced_value go_benefit.Prelude.list_beq
    go_benefit.Core.Operation.validate_capabilities go_benefit.Core.Config.validate_config_schema
    go_benefit.Text.Space.trim_space go_benefit.Core.Operation.Operation-discrete
    go_benefit.Core.Operation.OperationMode-discrete
held_run = (refl, refl)

-- What the definition returns has changed, and what Descriptors returns has not.
overwritten_run : (view ended.memory coupon_ref).config_schema.schema ≡ bytes "[]"
unfolding play perform follow register_ref clone_descriptor_ref clone_entries descriptors_ref
    go_benefit.Text.Order.sort_by go_benefit.Dict.insert go_benefit.Dict.lookup
    go_benefit.Core.Driver.validate_descriptor go_benefit.Core.Info.validate_driver_type
    go_benefit.Core.Identifier.validate_namespaced_value go_benefit.Prelude.list_beq
    go_benefit.Core.Operation.validate_capabilities go_benefit.Core.Config.validate_config_schema
    go_benefit.Text.Space.trim_space go_benefit.Core.Operation.Operation-discrete
    go_benefit.Core.Operation.OperationMode-discrete
overwritten_run = refl

described_run :
    map
      (view (descriptors_ref ended.entries ended.memory).1)
      (descriptors_ref ended.entries ended.memory).0
    ≡ as_registered ∷ []
unfolding play perform follow register_ref clone_descriptor_ref clone_entries descriptors_ref
    go_benefit.Text.Order.sort_by go_benefit.Dict.insert go_benefit.Dict.lookup
    go_benefit.Core.Driver.validate_descriptor go_benefit.Core.Info.validate_driver_type
    go_benefit.Core.Identifier.validate_namespaced_value go_benefit.Prelude.list_beq
    go_benefit.Core.Operation.validate_capabilities go_benefit.Core.Config.validate_config_schema
    go_benefit.Text.Space.trim_space go_benefit.Core.Operation.Operation-discrete
    go_benefit.Core.Operation.OperationMode-discrete
described_run = refl
