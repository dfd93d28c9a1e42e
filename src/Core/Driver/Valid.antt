-- ===== src/Core/Driver/Valid.antt =====
-- When descriptors and configuration schemas are valid.
use go_benefit.Prelude.{
  ◌≡◌, ◌≢◌, ◌↔◌, inl, inr, true, some, none, [], ◌∷◌, is_nil, String, arith, eq_iff,
}
use go_benefit.Text.{Text, bytes, text_eq}
use go_benefit.Text.Space.{trim_space}
use go_benefit.Dict.{Dict}
use go_benefit.Errors.{Error, Check, ok}
use go_benefit.Errors.Laws.{Result-cases}
use go_benefit.Core.Info.{validate_driver_type}
use go_benefit.Core.Identifier.{is_namespaced, validate_namespaced_value}
use go_benefit.Core.Operation.{validate_capabilities}
use go_benefit.Core.Config.{
  Json, ConfigSchema, schema_error, validate_config_schema, declared, raw_at,
  json_schema_draft202012,
}
use go_benefit.Core.Driver.{DriverDescriptor, validate_descriptor, expected_type}

-- A member of an object that is there and is the JSON of a given string.
pub record IsDeclared (json : Json) (key wanted : Text) (root : Dict Text Text) : Type 0 where
  pub present : raw_at key root ≢ []
  pub reads : json.decode_string (raw_at key root) ≡ ok wanted

pub record IsSchema (json : Json) (s : ConfigSchema) : Type 0 where
  pub revision : trim_space s.revision ≢ []
  pub given : s.schema ≢ []
  pub root : Dict Text Text
  pub object : json.decode_object s.schema ≡ ok (some root)
  pub dialect : IsDeclared json (bytes "$schema") json_schema_draft202012 root
  pub root_type : IsDeclared json (bytes "type") (bytes "object") root

is_nil_iff : (t : Text) → (is_nil t ≡ true) ↔ (t ≡ [])
is_nil_iff [] = ground arith
is_nil_iff (c ∷ t) = ground arith

declared_iff :
    (json : Json) (key wanted : Text) (missing : Error) (not_string : String) (unexpected : Error)
    (root : Dict Text Text)
    → (declared json key wanted missing not_string unexpected root ≡ ok tt)
      ↔ IsDeclared json key wanted root
unfolding declared
declared_iff json key wanted missing not_string unexpected root =
    elim (Result-cases (json.decode_string (raw_at key root))) [
      | inl (e, failed) ↦ (λ h. absurd (ground arith), λ h. absurd (ground (arith, h.reads)))
      | inr (value, read) ↦ (
        λ h. record {
          present = ground (arith, is_nil_iff (raw_at key root));
          reads = ground (arith, eq_iff value wanted);
        },
        λ h. ground (arith, h.present, h.reads, is_nil_iff (raw_at key root), eq_iff value wanted),
      )
    ]

module _ (json : Json) (root : Dict Text Text) where
  abbrev dialect_check : Check
  dialect_check =
      declared json (bytes "$schema") json_schema_draft202012
        (schema_error "%w: no $schema declaration") "%w: $schema declaration is not a string: %w"
        (schema_error "%w: unsupported dialect %q") root

  abbrev root_type_check : Check
  root_type_check =
      declared json (bytes "type") (bytes "object") (schema_error "%w: no root type")
        "%w: root type is not a string: %w" (schema_error "%w: root type is %q, want object") root

  dialect_iff :
      (dialect_check ≡ ok tt) ↔ IsDeclared json (bytes "$schema") json_schema_draft202012 root
  dialect_iff =
      declared_iff json (bytes "$schema") json_schema_draft202012
        (schema_error "%w: no $schema declaration") "%w: $schema declaration is not a string: %w"
        (schema_error "%w: unsupported dialect %q") root

  root_type_iff : (root_type_check ≡ ok tt) ↔ IsDeclared json (bytes "type") (bytes "object") root
  root_type_iff =
      declared_iff json (bytes "type") (bytes "object") (schema_error "%w: no root type")
        "%w: root type is not a string: %w" (schema_error "%w: root type is %q, want object") root

-- A schema is valid exactly where it has a revision and is a JSON object that declares the dialect of
-- 2020-12 and the type of an object, each by a string.
pub validate_config_schema_iff :
    (json : Json) (s : ConfigSchema) → (validate_config_schema json s ≡ ok tt) ↔ IsSchema json s
unfolding validate_config_schema
validate_config_schema_iff json s = elim (Result-cases (json.decode_object s.schema)) [
  | inl (e, failed) ↦ (λ h. absurd (ground arith), λ h. absurd (ground (arith, h.object)))
  | inr (none, read) ↦ (λ h. absurd (ground arith), λ h. absurd (ground (arith, h.object)))
  | inr (some root, read) ↦ (
    λ h. record {
      revision = ground (arith, is_nil_iff (trim_space s.revision));
      given = ground (arith, is_nil_iff s.schema);
      root = root;
      object = read;
      dialect = (dialect_iff json root).0 (ground arith);
      root_type = (root_type_iff json root).0 (ground arith);
    },
    λ h.
        let same : h.root ≡ root = ground (arith, h.object) in
        let dialect : IsDeclared json (bytes "$schema") json_schema_draft202012 root =
          rw (← same) h.dialect in
        let root_type : IsDeclared json (bytes "type") (bytes "object") root =
          rw (← same) h.root_type in
        ground (
          arith,
          h.revision,
          h.given,
          is_nil_iff (trim_space s.revision),
          is_nil_iff s.schema,
          (dialect_iff json root).1 dialect,
          (root_type_iff json root).1 root_type,
        ),
  )
]

pub record IsDescriptor (json : Json) (d : DriverDescriptor) : Type 0 where
  pub namespaced : is_namespaced d.driver_type ≡ true
  pub name : d.name ≢ []
  pub kind : d.kind.type_name ≢ []
  pub provider : d.provider.type_name ≢ []
  pub composed : d.driver_type ≡ expected_type d
  pub operations : validate_capabilities d.operations ≡ ok tt
  pub schema : IsSchema json d.config_schema

-- A descriptor is valid exactly where its type is the namespaced name of its provider and kind, it has a
-- name, a kind and a provider, its capabilities are valid, and so is the schema of its configurations.
pub validate_descriptor_iff :
    (json : Json) (d : DriverDescriptor)
    → (validate_descriptor json d ≡ ok tt) ↔ IsDescriptor json d
unfolding validate_descriptor validate_driver_type validate_namespaced_value
validate_descriptor_iff json d = elim (Result-cases (validate_config_schema json d.config_schema)) [
  | inl (e, failed) ↦ (
    λ h. absurd (ground arith),
    λ h. absurd (ground (arith, (validate_config_schema_iff json d.config_schema).1 h.schema)),
  )
  | inr (u, passed) ↦ (
    λ h. record {
      namespaced = ground arith;
      name = ground (arith, is_nil_iff d.name);
      kind = ground (arith, is_nil_iff d.kind.type_name);
      provider = ground (arith, is_nil_iff d.provider.type_name);
      composed = ground (arith, eq_iff d.driver_type (expected_type d));
      operations = ground arith;
      schema = (validate_config_schema_iff json d.config_schema).0 passed;
    },
    λ h. ground (
      arith,
      h.namespaced,
      h.name,
      h.kind,
      h.provider,
      h.composed,
      h.operations,
      is_nil_iff d.name,
      is_nil_iff d.kind.type_name,
      is_nil_iff d.provider.type_name,
      eq_iff d.driver_type (expected_type d),
    ),
  )
]
