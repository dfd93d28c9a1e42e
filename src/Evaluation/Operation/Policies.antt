-- ===== src/Evaluation/Operation/Policies.antt =====
-- The loop over the policies against a description with no loop.
use go_benefit.Prelude.{
  ◌≡◌, refl, ◌↔◌, inl, inr, Bool, true, false, ◌&&◌, some, none, List, [], ◌∷◌, ◌++◌, any, All,
  arith, if◌then◌else◌, Bool-cases,
}
use mathlib.Core.List.{append-nil, append_assoc}
use go_benefit.Core.Constraint.{Constraint}
use go_benefit.Core.Operation.{Operation, OperationMode, OperationPolicy, OperationPolicies}
use go_benefit.Evaluation.Operation.{policy_matches, collect}

module _ (operation : Operation) (mode : OperationMode) where
  abbrev pub is_disabling : OperationPolicy → Bool
  is_disabling p = policy_matches p operation mode && p.disabled

  -- The constraints of the matching policies, in order.
  abbrev pub gathered : OperationPolicies → List Constraint
  gathered [] = []
  gathered (p ∷ ps) =
      let rest = gathered ps in
      if policy_matches p operation mode then p.constraints ++ rest else rest

  collect_from_lem :
      (acc : List Constraint) (ps : OperationPolicies)
      → collect operation mode acc ps
        ≡ (if any is_disabling ps then none else some (acc ++ gathered ps))
  unfolding collect
  collect_from_lem acc [] = ground (arith, append-nil acc)
  collect_from_lem acc (p ∷ ps) = elim (Bool-cases (policy_matches p operation mode)) [
    | inl matching ↦ ground (
      arith,
      collect_from_lem (acc ++ p.constraints) ps,
      append_assoc acc p.constraints (gathered ps),
    )
    | inr other ↦ ground (arith, collect_from_lem acc ps)
  ]

  -- Nothing is collected where any matching policy disables, else all their constraints.
  pub collect_lem :
      (ps : OperationPolicies)
      → collect operation mode [] ps ≡ (if any is_disabling ps then none else some (gathered ps))
  collect_lem ps = collect_from_lem [] ps

  module _ (P : Constraint → Type 0) where
    -- Every matching policy is enabled, and its constraints hold.
    abbrev pub Permits : OperationPolicy → Type 0
    Permits p = policy_matches p operation mode ≡ true → (p.disabled ≡ false) × All P p.constraints

    All-append : (xs ys : List Constraint) → All P (xs ++ ys) ↔ (All P xs × All P ys)
    All-append [] ys = (λ h. (tt, h), λ h. h.1)
    All-append (x ∷ xs) ys = ground (arith, All-append xs ys)

    pub gathered-All :
        (ps : OperationPolicies)
        → ((any is_disabling ps ≡ false) × All P (gathered ps)) ↔ All Permits ps
    gathered-All [] = (λ h. tt, λ h. (refl, tt))
    gathered-All (p ∷ ps) = elim (Bool-cases (policy_matches p operation mode)) [
      | inl matching ↦ ground (arith, gathered-All ps, All-append p.constraints (gathered ps))
      | inr other ↦ ground (arith, gathered-All ps)
    ]
