-- ===== src/Evaluation/Operation/Decisions.antt =====
-- The decisions of EvaluateOperation.
use go_benefit.Prelude.{
  ◌≡◌, ◌≢◌, ◌↔◌, ◌⊎◌, inl, inr, true, not, ◌&&◌, some, none, List, [], any, All, arith, Bool-cases,
  Option-cases, ◌==◌,
}
use go_benefit.Errors.{ok}
use go_benefit.Core.Constraint.{Constraint, ConstraintDecisionCode}
use go_benefit.Core.Operation.{
  Operation, OperationMode, OperationCapability, OperationCapabilities, OperationPolicies,
  OperationDecision, OperationDecisionStatus, validate_operation_decision, get_capability,
  supports_mode, mode_eq,
}
use go_benefit.Constraint.Types.{Context, Input}
use go_benefit.Constraint.Registry.{Registry, evaluate, evaluate_all}
use go_benefit.Constraint.Registry.Report.{evaluate_all-satisfied_iff, evaluate_all-status}
use go_benefit.Evaluation.Operation.{
  collect, reported, decide_operation, evaluate_operation, unsupported_decision,
}
use go_benefit.Evaluation.Operation.Policies.{
  is_disabling, gathered, collect_lem, Permits, gathered-All,
}

module _ (ctx : Context) (r : Registry) (caps : OperationCapabilities)
    (policies : OperationPolicies) (operation : Operation) (mode : OperationMode)
    (input : Input) where
  reported-valid :
      (cs : List Constraint)
      → operation ≢ Operation.empty
      → validate_operation_decision (reported operation mode (evaluate_all (some r) ctx input cs))
        ≡ ok tt
  unfolding validate_operation_decision reported
  reported-valid cs h = ground (arith, evaluate_all-status (some r) ctx input cs)

  decide_operation-valid :
      operation ≢ Operation.empty
      → validate_operation_decision (decide_operation ctx r caps policies operation mode input)
        ≡ ok tt
  unfolding decide_operation validate_operation_decision
  decide_operation-valid h = elim (Option-cases (collect operation mode [] policies)) [
    | inl disabled ↦ ground arith
    | inr (cs, collected) ↦ ground (arith, reported-valid cs h)
  ]

  -- The mode is left open or one that the driver declares.
  abbrev pub IsOffered : Type 0
  IsOffered =
      (cap : OperationCapability) × (get_capability caps operation ≡ some cap)
      × ((mode ≡ OperationMode.empty) ⊎ (supports_mode cap mode ≡ true))

  abbrev pub IsSatisfied : Constraint → Type 0
  IsSatisfied c = (evaluate (some r) ctx c input).code ≡ ConstraintDecisionCode.satisfied

  -- The verdict on the policies once the operation is known to be offered.
  verdict_iff :
      ((elim (collect operation mode [] policies) as (λ _. OperationDecisionStatus) [
        | none ↦ OperationDecisionStatus.unsupported
        | some cs ↦ (reported operation mode (evaluate_all (some r) ctx input cs)).status
      ])
        ≡ OperationDecisionStatus.eligible)
      ↔ All (Permits operation mode IsSatisfied) policies
  unfolding reported
  verdict_iff = elim (Bool-cases (any (is_disabling operation mode) policies)) [
    | inl disabled ↦ ground (
      arith,
      collect_lem operation mode policies,
      gathered-All operation mode IsSatisfied policies,
    )
    | inr enabled ↦ ground (
      arith,
      collect_lem operation mode policies,
      gathered-All operation mode IsSatisfied policies,
      evaluate_all-satisfied_iff (some r) ctx input (gathered operation mode policies),
    )
  ]

  decide_operation-eligible_iff :
      ((decide_operation ctx r caps policies operation mode input).status
        ≡ OperationDecisionStatus.eligible)
      ↔ (IsOffered × All (Permits operation mode IsSatisfied) policies)
  unfolding decide_operation
  decide_operation-eligible_iff = elim (Option-cases (get_capability caps operation)) [
    | inl missing ↦ (λ h. absurd (ground arith), λ h. absurd (ground arith))
    | inr (cap, found) ↦
        elim (Bool-cases (not (mode == OperationMode.empty) && not (supports_mode cap mode))) [
          | inl refused ↦ (λ h. absurd (ground arith), λ h. absurd (ground arith))
          | inr offered ↦ (
            λ h. ((cap, found, ground arith), ground (arith, verdict_iff)),
            λ h. ground (arith, verdict_iff),
          )
        ]
  ]

  decide_operation-operation :
      (decide_operation ctx r caps policies operation mode input).operation ≡ operation
  unfolding decide_operation reported unsupported_decision
  decide_operation-operation = elim (Option-cases (collect operation mode [] policies)) [
    | inl disabled ↦ ground arith
    | inr (cs, collected) ↦ ground arith
  ]

  validate_operation_decision-named :
      (d : OperationDecision)
      → validate_operation_decision d ≡ ok tt
      → d.operation ≢ Operation.empty
  unfolding validate_operation_decision
  validate_operation_decision-named d h = ground arith

  -- A decision that EvaluateOperation returns passes Validate exactly where the operation has a name:
  -- the empty operation is not refused, and its decision is invalid.
  pub evaluate_operation-valid_iff :
      (d : OperationDecision)
      → evaluate_operation ctx (some r) caps policies operation mode input ≡ ok d
      → (validate_operation_decision d ≡ ok tt) ↔ (operation ≢ Operation.empty)
  unfolding evaluate_operation
  evaluate_operation-valid_iff d h =
      let same : decide_operation ctx r caps policies operation mode input ≡ d = ground arith in
      rw (← same) (
        λ v. rw decide_operation-operation at (validate_operation_decision-named _ v),
        decide_operation-valid,
      )

  -- A returned decision is eligible exactly when the driver declares the operation and the mode, if
  -- one is given, no matching policy disables it, and the registry satisfies every constraint of the
  -- matching policies.
  pub evaluate_operation-eligible_iff :
      (d : OperationDecision)
      → evaluate_operation ctx (some r) caps policies operation mode input ≡ ok d
      → (d.status ≡ OperationDecisionStatus.eligible)
        ↔ (IsOffered × All (Permits operation mode IsSatisfied) policies)
  unfolding evaluate_operation
  evaluate_operation-eligible_iff d h =
      let same : decide_operation ctx r caps policies operation mode input ≡ d = ground arith in
      rw (← same) decide_operation-eligible_iff
