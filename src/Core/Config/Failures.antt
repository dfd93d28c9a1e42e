-- ===== src/Core/Config/Failures.antt =====
-- The category of configuration and schema errors.
use go_benefit.Prelude.{◌≡◌, inl, inr, true, [], ◌∷◌, arith}
use go_benefit.Text.{Text}
use go_benefit.Text.Space.{trim_space}
use go_benefit.Errors.{Error, is_error, err, err_invalid_driver_config}
use go_benefit.Errors.Laws.{Result-cases}
use go_benefit.Core.Config.{Json, validate_driver_config}

-- Every error of DriverConfig.Validate matches ErrInvalidDriverConfig.
pub validate_driver_config-error :
    (json : Json) (config : Text) (e : Error)
    → validate_driver_config json config ≡ err e
    → is_error e err_invalid_driver_config ≡ true
unfolding validate_driver_config is_error
validate_driver_config-error json [] e h = cc
validate_driver_config-error json (b ∷ rest) e h =
    elim (Result-cases (json.decode_object (trim_space (b ∷ rest)))) [
      | inl (f, failed) ↦ ground arith
      | inr (object, decoded) ↦ ground arith
    ]
