-- ===== src/Errors/Laws.antt =====
-- Chains of checks: when they pass, and which variables their errors match.
use go_benefit.Prelude.{◌⊎◌, inl, inr, ◌≡◌, refl, ◌↔◌, Bool, true, false, some, String, arith}
use go_benefit.Errors.{
  Sentinel, err_validation, Error, sentinel, errorf, errorf_two, wrapped, is_error, Result, ok, err,
  Check, ◌>>◌, fail_if, validation_error,
}

pub >>-eq-ok_iff : (m k : Check) → ((m >> k) ≡ ok tt) ↔ ((m ≡ ok tt) × (k ≡ ok tt))
>>-eq-ok_iff (ok tt) k = ground arith
>>-eq-ok_iff (err e) k = ground arith

pub fail_if-eq-ok_iff : (b : Bool) (e : Error) → (fail_if b e ≡ ok tt) ↔ (b ≡ false)
fail_if-eq-ok_iff true e = ground arith
fail_if-eq-ok_iff false e = ground arith

-- errors.Is(e, ErrValidation)
abbrev pub IsValidation : Error → Type 0
IsValidation e = is_error e err_validation ≡ true

pub sentinel-IsValidation :
    (s : Sentinel) → wrapped s ≡ some err_validation → IsValidation (sentinel s)
unfolding is_error
sentinel-IsValidation s h = ground arith

pub validation_error-IsValidation : (msg : String) → IsValidation (validation_error msg)
unfolding is_error
validation_error-IsValidation msg = refl

pub errorf-IsValidation : (msg : String) (e : Error) → IsValidation e → IsValidation (errorf msg e)
unfolding is_error
errorf-IsValidation msg e h = h

pub errorf_two-IsValidation :
    (msg : String) (e f : Error) → IsValidation e → IsValidation (errorf_two msg e f)
unfolding is_error
errorf_two-IsValidation msg e f h = rw h

-- To split on the result of a call and keep the equation.
pub Result-cases {ℓ} :
    {A : Type ℓ} (m : Result A) → ((e : Error) × (m ≡ err e)) ⊎ ((a : A) × (m ≡ ok a))
Result-cases (ok a) = inr (a, refl)
Result-cases (err e) = inl (e, refl)
