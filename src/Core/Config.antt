-- ===== src/Core/Config.antt =====
-- driver_config.go: driver configurations and their schemas.
pub mod Failures
use go_benefit.Prelude.{
  ℕ, Bool, true, false, not, ◌&&◌, ◌||◌, Option, none, some, List, [], ◌∷◌, is_nil, length, ltb,
  String, ◌==◌, nat_eq, if◌then◌else◌,
}
use mathlib.Core.List.{reverse}
use go_benefit.Text.{Text, bytes, text_eq}
use go_benefit.Text.Space.{trim_space}
use go_benefit.Text.Utf8.{valid_utf8}
use go_benefit.Dict.{Dict, lookup}
use go_benefit.Errors.{
  Error, Check, Result, ok, err, ◌>>=◌, ◌>>◌, fail_if, errorf, errorf_two, sentinel,
  err_invalid_driver_config, err_invalid_config_schema,
}

-- json.Unmarshal at map[string]jsontext.Value, where a nil map is `none`, and at string.
pub record Json : Type 0 where
  pub decode_object : Text → Result (Option (Dict Text Text))
  pub decode_string : Text → Result Text

-- DriverConfig.IsZero
abbrev pub is_zero_config : Text → Bool
is_zero_config = is_nil

abbrev pub json_schema_draft202012 : Text
json_schema_draft202012 = bytes "https://json-schema.org/draft/2020-12/schema"

abbrev pub config_error : String → Error
config_error msg = errorf msg (sentinel err_invalid_driver_config)

abbrev pub schema_error : String → Error
schema_error msg = errorf msg (sentinel err_invalid_config_schema)

abbrev first_is : ℕ → Text → Bool
first_is b [] = false
first_is b (c ∷ t) = c == b

-- `value[0] == '{' && value[len(value)-1] == '}'`
unfoldable pub is_braced : Text → Bool
is_braced value = first_is b'{' value && first_is b'}' (reverse value)

-- A fallible call whose error is wrapped beside a category.
abbrev pub wrap_error {ℓ} : {A : Type ℓ} → (Error → Error) → Result A → Result A
wrap_error wrapper (ok a) = ok a
wrap_error wrapper (err e) = err (wrapper e)

unfoldable pub validate_driver_config : Json → Text → Check
unfolding is_braced
validate_driver_config json [] = ok tt
validate_driver_config json (b ∷ rest) = do
  let value = trim_space (b ∷ rest)
  fail_if (not (valid_utf8 (b ∷ rest))) (config_error "%w: not valid UTF-8")
  fail_if (ltb (length value) 2 || not (is_braced value)) (config_error "%w: not a JSON object")
  object ←
      wrap_error (errorf_two "%w: not a JSON object: %w" (sentinel err_invalid_driver_config))
        (json.decode_object value)
  ok tt

pub record ConfigSchema : Type 0 where
  pub optional : Bool
  pub revision : Text
  pub schema : Text

-- A missing key reads as the empty value.
abbrev pub raw_at : Text → Dict Text Text → Text
raw_at key root = elim (lookup key root) [ none ↦ [] | some raw ↦ raw ]

-- A root declaration that must be present, a string and equal to what is wanted.
unfoldable pub declared : Json → Text → Text → Error → String → Error → Dict Text Text → Check
declared json key wanted missing not_string unexpected root = do
  fail_if (is_nil (raw_at key root)) missing
  value ←
      wrap_error (errorf_two not_string (sentinel err_invalid_config_schema))
        (json.decode_string (raw_at key root))
  fail_if (not (value == wanted)) unexpected

unfoldable pub validate_config_schema : Json → ConfigSchema → Check
unfolding declared
validate_config_schema json s = do
  fail_if (is_nil (trim_space s.revision)) (schema_error "%w: revision is empty")
  fail_if (is_nil s.schema) (schema_error "%w: document is empty")
  root ←
      wrap_error (errorf_two "%w: document is invalid: %w" (sentinel err_invalid_config_schema))
        (json.decode_object s.schema)
  elim root [
    | none ↦ err (schema_error "%w: document is not an object")
    | some fields ↦ do
      declared json (bytes "$schema") json_schema_draft202012
          (schema_error "%w: no $schema declaration") "%w: $schema declaration is not a string: %w"
          (schema_error "%w: unsupported dialect %q") fields
      declared json (bytes "type") (bytes "object") (schema_error "%w: no root type")
          "%w: root type is not a string: %w" (schema_error "%w: root type is %q, want object")
          fields
  ]
