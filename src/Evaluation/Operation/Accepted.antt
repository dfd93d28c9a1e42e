-- ===== src/Evaluation/Operation/Accepted.antt =====
-- The arguments that EvaluateOperation accepts.
use go_benefit.Prelude.{
  ◌≡◌, ◌↔◌, inl, inr, true, false, some, List, [], ◌∷◌, map, All, IsDistinct, arith, Option-cases,
}
use go_benefit.Errors.{ok}
use go_benefit.Core.Operation.{
  Operation, operation_eq, is_core, OperationMode, mode_eq, OperationCapability,
  OperationCapabilities, OperationPolicy, OperationPolicies, OperationDecision, get_capability,
  supports_mode,
}
use go_benefit.Core.Operation.Valid.{
  IsCapability, IsPolicy, validate_capabilities_iff, validate_policies_iff,
}
use go_benefit.Constraint.Types.{Context, Input}
use go_benefit.Constraint.Registry.{Registry}
use go_benefit.Evaluation.Operation.{
  check_policy_modes, check_policy, validate_policies_against_capabilities, evaluate_operation,
  decide_operation,
}

-- The operation of the policy is declared with every mode that the policy targets.
abbrev pub IsTargeted : OperationCapabilities → OperationPolicy → Type 0
IsTargeted caps p =
    (cap : OperationCapability) × (get_capability caps p.operation ≡ some cap)
    × All (λ m. supports_mode cap m ≡ true) p.match_modes

check_policy_modes_iff :
    (cap : OperationCapability) (modes : List OperationMode)
    → (check_policy_modes cap modes ≡ ok tt) ↔ All (λ m. supports_mode cap m ≡ true) modes
unfolding check_policy_modes
check_policy_modes_iff cap [] = ground arith
check_policy_modes_iff cap (m ∷ modes) = ground (arith, check_policy_modes_iff cap modes)

check_policy_iff :
    (caps : OperationCapabilities) (p : OperationPolicy)
    → (check_policy caps p ≡ ok tt) ↔ IsTargeted caps p
unfolding check_policy
check_policy_iff caps p = elim (Option-cases (get_capability caps p.operation)) [
  | inl missing ↦ (λ h. absurd (ground arith), λ (cap, found, modes). absurd (ground arith))
  | inr (cap, found) ↦ (
    λ h. (cap, found, ground (arith, check_policy_modes_iff cap p.match_modes)),
    λ (other_cap, found_other, modes).
        let same : other_cap ≡ cap = ground arith in
        ground (arith, check_policy_modes_iff cap p.match_modes),
  )
]

check_policies_iff :
    (caps : OperationCapabilities) (ps : OperationPolicies)
    → (validate_policies_against_capabilities caps ps ≡ ok tt) ↔ All (IsTargeted caps) ps
unfolding validate_policies_against_capabilities
check_policies_iff caps [] = ground arith
check_policies_iff caps (p ∷ ps) =
    ground (arith, check_policy_iff caps p, check_policies_iff caps ps)

pub record IsAccepted (caps : OperationCapabilities) (policies : OperationPolicies)
    (operation : Operation) : Type 0 where
  pub not_core : is_core operation ≡ false
  pub capabilities : All IsCapability caps
  pub distinct : IsDistinct (map (λ c. c.operation) caps)
  pub well_formed : All IsPolicy policies
  pub targeted : All (IsTargeted caps) policies

module _ (ctx : Context) (r : Registry) (caps : OperationCapabilities)
    (policies : OperationPolicies) (operation : Operation) (mode : OperationMode)
    (input : Input) where
  -- EvaluateOperation with a registry returns a decision exactly where the operation is not a core
  -- one, the capabilities and the policies are valid by themselves, and every policy targets a
  -- declared operation by declared modes.
  pub evaluate_operation-returns_iff :
      ((d : OperationDecision) × (evaluate_operation ctx (some r) caps policies operation mode input
          ≡ ok d))
      ↔ IsAccepted caps policies operation
  unfolding evaluate_operation
  evaluate_operation-returns_iff = (
    λ (d, h). record {
      not_core = ground arith;
      capabilities = ground (arith, validate_capabilities_iff caps);
      distinct = ground (arith, validate_capabilities_iff caps);
      well_formed = ground (arith, validate_policies_iff policies);
      targeted = ground (arith, check_policies_iff caps policies);
    },
    λ h. (
      decide_operation ctx r caps policies operation mode input,
      ground (
        arith,
        h.not_core,
        (validate_capabilities_iff caps).1 (h.capabilities, h.distinct),
        (validate_policies_iff policies).1 h.well_formed,
        (check_policies_iff caps policies).1 h.targeted,
      ),
    ),
  )
