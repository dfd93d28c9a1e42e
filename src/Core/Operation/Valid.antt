-- ===== src/Core/Operation/Valid.antt =====
-- What validation of capabilities and policies accepts.
use go_benefit.Prelude.{
  ◌≡◌, refl, ◌≢◌, ◌↔◌, ◌⊎◌, true, false, List, [], ◌∷◌, map, All, has, IsDistinct, Passes,
  Passes-iff, arith, is_nil,
}
use go_benefit.Errors.{ok}
use go_benefit.Core.Operation.{
  Operation, operation_eq, is_core, OperationMode, mode_eq, OperationCapability,
  OperationCapabilities, OperationPolicy, OperationPolicies, contains_operation_mode,
  validate_optional_operation, validate_modes_from, validate_operation_modes,
  validate_capabilities_from, validate_capabilities, validate_policy, validate_policies,
}

-- An operation that may be declared.
abbrev pub IsOptional : Operation → Type 0
IsOptional operation = (operation ≢ Operation.empty) × (is_core operation ≡ false)

abbrev pub IsModeOf : Operation → OperationMode → Type 0
IsModeOf operation mode =
    (mode ≢ OperationMode.empty)
    × (operation ≡ Operation.reverse → (mode ≡ OperationMode.full) ⊎ (mode ≡ OperationMode.partial))

-- The modes of one operation: named, supported and without repetition.
abbrev pub HasModes : Operation → List OperationMode → Type 0
HasModes operation modes = All (IsModeOf operation) modes × IsDistinct modes

validate_modes_from_iff :
    (operation : Operation) (seen modes : List OperationMode)
    → (validate_modes_from operation seen modes ≡ ok tt)
      ↔ Passes (IsModeOf operation) (λ m. m) seen modes
unfolding validate_modes_from
validate_modes_from_iff operation seen [] = ground arith
validate_modes_from_iff operation seen (m ∷ modes) =
    ground (arith, validate_modes_from_iff operation (m ∷ seen) modes)

map_id {ℓ} : {A : Type ℓ} (xs : List A) → map (λ x. x) xs ≡ xs
map_id [] = refl
map_id (x ∷ xs) = cc (map_id xs)

pub validate_operation_modes_iff :
    (operation : Operation) (modes : List OperationMode)
    → (validate_operation_modes operation modes ≡ ok tt) ↔ HasModes operation modes
unfolding validate_operation_modes
validate_operation_modes_iff operation modes = (
  λ h.
      let k =
        (Passes-iff (IsModeOf operation) (λ m. m) modes).0
          ((validate_modes_from_iff operation [] modes).0 h) in
      (k.0, rw map_id at k.1),
  λ h.
      (validate_modes_from_iff operation [] modes).1
        ((Passes-iff (IsModeOf operation) (λ m. m) modes).1 (h.0, rw map_id h.1)),
)

-- One capability by itself: Reverse includes full mode.
pub record IsCapability (c : OperationCapability) : Type 0 where
  pub optional : IsOptional c.operation
  pub modes : HasModes c.operation c.modes
  pub full : c.operation ≡ Operation.reverse → has c.modes OperationMode.full ≡ true

validate_optional_operation_iff :
    (operation : Operation) → (validate_optional_operation operation ≡ ok tt) ↔ IsOptional operation
unfolding validate_optional_operation
validate_optional_operation_iff operation = ground arith

validate_capabilities_from_iff :
    (seen : List Operation) (cs : OperationCapabilities)
    → (validate_capabilities_from seen cs ≡ ok tt) ↔ Passes IsCapability (λ c. c.operation) seen cs
unfolding validate_capabilities_from contains_operation_mode
validate_capabilities_from_iff seen [] = ground arith
validate_capabilities_from_iff seen (c ∷ cs) = ground (
  arith,
  validate_optional_operation_iff c.operation,
  validate_operation_modes_iff c.operation c.modes,
  validate_capabilities_from_iff (c.operation ∷ seen) cs,
)

-- Capabilities are accepted exactly when no operation is declared twice and each is an optional
-- operation with distinct, non-empty modes, those of Reverse being full and possibly partial.
pub validate_capabilities_iff :
    (cs : OperationCapabilities)
    → (validate_capabilities cs ≡ ok tt)
      ↔ (All IsCapability cs × IsDistinct (map (λ c. c.operation) cs))
unfolding validate_capabilities
validate_capabilities_iff cs = (
  λ h.
      (Passes-iff IsCapability (λ c. c.operation) cs).0
        ((validate_capabilities_from_iff [] cs).0 h),
  λ h.
      (validate_capabilities_from_iff [] cs).1
        ((Passes-iff IsCapability (λ c. c.operation) cs).1 h),
)

-- A policy disables its operation or constrains it, and not both.
pub record IsPolicy (p : OperationPolicy) : Type 0 where
  pub optional : IsOptional p.operation
  pub modes : HasModes p.operation p.match_modes
  pub one_effect : p.disabled ≡ is_nil p.constraints

validate_policy_iff : (p : OperationPolicy) → (validate_policy p ≡ ok tt) ↔ IsPolicy p
unfolding validate_policy
validate_policy_iff p = ground (
  arith,
  validate_optional_operation_iff p.operation,
  validate_operation_modes_iff p.operation p.match_modes,
)

-- Policies are accepted exactly when each targets an optional operation by distinct, non-empty modes
-- and either is disabled or has constraints, but not both.
pub validate_policies_iff :
    (ps : OperationPolicies) → (validate_policies ps ≡ ok tt) ↔ All IsPolicy ps
unfolding validate_policies
validate_policies_iff [] = ground arith
validate_policies_iff (p ∷ ps) = ground (arith, validate_policy_iff p, validate_policies_iff ps)
