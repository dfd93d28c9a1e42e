-- ===== src/Errors.antt =====
-- The error values of the packages (errors.go, constraint/errors.go, driver/errors.go,
-- discount/errors.go, and ErrBenefitNotFound of driver.go), errors.Is on them, and calls that
-- return an error.
pub mod Laws
use go_benefit.Prelude.{ℕ, Bool, true, false, ◌||◌, Option, none, some, String, if◌then◌else◌}

-- The package variables that hold an error.
pub data Sentinel : Type 0 where
  err_validation err_id_mismatch err_invalid_driver_config err_invalid_config_schema : Sentinel
  err_invalid_currency err_invalid_constraint_params err_benefit_not_found : Sentinel
  constraint_err_nil_registry constraint_err_already_registered err_invalid_evaluator : Sentinel
  driver_err_nil_registry err_invalid_definition driver_err_already_registered : Sentinel
  err_not_registered err_currency_mismatch err_missing_effect err_invalid_amount : Sentinel
  err_invalid_basis_points err_discount_exceeds_original err_original_amount_mismatch : Sentinel

-- An error value. A format is kept with the errors that its `%w` verbs wrap; the other operands
-- of a message are not kept. `foreign` is an error of code outside the packages that wraps none of
-- their variables, such as one of a JSON decoder or of a cancelled context.
pub data Error : Type 0 where
  sentinel : Sentinel → Error
  errorf : String → Error → Error
  errorf_two : String → Error → Error → Error
  foreign : ℕ → Error

pub Sentinel-discrete : Discrete Sentinel
Sentinel-discrete = hlevel

-- What a variable declared by fmt.Errorf with `%w` wraps.
abbrev pub wrapped : Sentinel → Option Sentinel
wrapped err_validation = none
wrapped err_benefit_not_found = none
wrapped constraint_err_nil_registry = none
wrapped constraint_err_already_registered = none
wrapped err_invalid_evaluator = none
wrapped driver_err_nil_registry = none
wrapped err_invalid_definition = none
wrapped driver_err_already_registered = none
wrapped err_not_registered = none
wrapped _ = some err_validation

abbrev pub same : Sentinel → Sentinel → Bool
same s t = elim (Sentinel-discrete s t) [ yes _ ↦ true | no _ ↦ false ]

-- errors.Is(e, target): the target stands in the tree of wrapped errors.
unfoldable pub is_error : Error → Sentinel → Bool
unfolding Sentinel-discrete
is_error (sentinel s) t =
    same s t || (elim (wrapped s) [ none ↦ false | some parent ↦ same parent t ])
is_error (errorf msg e) t = is_error e t
is_error (errorf_two msg e f) t = is_error e t || is_error f t
is_error (foreign n) t = false

-- A call that returns a value and an error: the value counts only where the error is nil.
pub data Result {ℓ} (A : Type ℓ) : Type ℓ where
  ok : A → Result A
  err : Error → Result A

infixl 5 ◌>>=◌ ◌>>◌
abbrev pub ◌>>=◌ {ℓ κ} : {A : Type ℓ} {B : Type κ} → Result A → (A → Result B) → Result B
ok a >>= f = f a
err e >>= f = err e

-- `error` alone: `ok tt` is nil.
abbrev pub Check : Type 0
Check = Result (Unit {0})

abbrev pub ◌>>◌ {ℓ} : {B : Type ℓ} → Check → Result B → Result B
m >> k = m >>= λ _. k

-- `if bad { return fmt.Errorf(msg, e) }`
abbrev pub fail_if : Bool → Error → Check
fail_if bad e = if bad then err e else ok tt

-- fmt.Errorf("%w: " + msg, ErrValidation, …)
abbrev pub validation_error : String → Error
validation_error msg = errorf msg (sentinel err_validation)
