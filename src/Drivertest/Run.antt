-- ===== src/Drivertest/Run.antt =====
-- Run of drivertest/drivertest.go. Each subtest gets a fixture and the state of its provider from the
-- factory; reflect.DeepEqual on snapshots is a parameter.
pub mod Laws
pub mod Inspect
pub mod Reverse
pub mod Safety
pub mod Skips
pub mod Outcomes
pub mod Passes
use go_benefit.Prelude.{
  ℕ, zero, suc, Bool, true, false, not, ◌&&◌, ◌||◌, Option, none, some, List, [], ◌∷◌, String,
  is_some, if◌then◌else◌, ◌==◌,
}
use go_benefit.Text.{text_eq}
use go_benefit.Core.Money.{Money}
use go_benefit.Core.Status.{ResultStatus, result_status_eq}
use go_benefit.Core.Operation.{Operation, OperationMode, get_capability}
use go_benefit.Core.Info.{
  InspectRequest, EvaluateRequest, RedeemRequest, ReverseRequest, validate_benefit_info,
}
use go_benefit.Core.Config.{Json}
use go_benefit.Core.Results.{Redemption, RedeemResult, ReverseResult}
use go_benefit.Core.Driver.{DriverDescriptor, Driver, validate_descriptor}
use go_benefit.Errors.{Result}
use go_benefit.Drivertest.{Verdict, check_evaluation, check_redeem, check_reverse}
use go_benefit.Drivertest.Test.{
  Outcome, returned, failed, skipped, panicked, Test, ◌>>=◌, ◌>>◌, pure, fail, skip, panic,
  fail_when, call, want, settle, assert,
}

-- S is the state of the provider and of the mutable request input, V the type of the snapshots. A
-- nil driver or callback is `none`.
pub record Fixture (S V : Type 0) : Type 0 where
  pub driver : Option (Driver S)
  pub inspect : InspectRequest
  pub evaluate : EvaluateRequest
  pub redeem : RedeemRequest
  pub reverse : ReverseRequest
  pub original : Option Money
  pub input_snapshot : Option (S → V)
  pub consumption_snapshot : Option (S → V)
  pub assert_redeemed : Option (RedeemRequest → RedeemResult → S → Verdict × S)
  pub assert_reversed : Option (ReverseRequest → ReverseResult → S → Verdict × S)

-- The descriptor declares Reverse.
abbrev pub declares_reverse : DriverDescriptor → Bool
declares_reverse descriptor = is_some (get_capability descriptor.operations Operation.reverse)

module _ {S V : Type 0} (json : Json) where
  -- What `fresh` checks of a driver that is not nil.
  unfoldable pub check_driver : Fixture S V → Driver S → Test S (Driver S)
  check_driver f d = do
    want (validate_descriptor json d.descriptor) "invalid driver descriptor: %v"
    fail_when (declares_reverse d.descriptor && not (is_some d.reverse))
        "driver declares Reverse but does not implement Reverser"
    fail_when
        (declares_reverse d.descriptor
          && (not (is_some f.assert_redeemed) || not (is_some f.assert_reversed)))
        "Reverse fixture requires AssertRedeemed and AssertReversed to verify provider state"
    pure d

  unfoldable pub fresh : Fixture S V → Test S (Driver S)
  unfolding check_driver
  fresh f = elim f.driver [ none ↦ fail "fixture has no driver" | some d ↦ check_driver f d ]

module _ {S V : Type 0} where
  -- The request is redeemed without an evaluation token.
  abbrev pub plain_redeem : Fixture S V → RedeemRequest
  plain_redeem f = record f.redeem { evaluation_token = [] }

  -- The request for the reversal of a redemption.
  abbrev pub reverse_of : Fixture S V → Redemption → ReverseRequest
  reverse_of f s = record f.reverse {
    redemption_id = s.redemption_id;
    provider_redemption_id = s.provider_redemption_id;
    mode = OperationMode.full;
  }

  -- `if f.AssertRedeemed != nil { … }`
  unfoldable pub assert_if_set : Fixture S V → RedeemRequest → RedeemResult → Test S (Unit {0})
  assert_if_set f req r = elim f.assert_redeemed [
    | none ↦ pure tt
    | some callback ↦ assert (callback req r)
  ]

module _ {S V : Type 0} (deep_equal : V → V → Bool) where
  -- The check that `unchanged` returns, for the snapshot taken before.
  unfoldable pub still : (S → V) → V → String → Test S (Unit {0})
  still snapshot before msg s = fail_when (not (deep_equal before (snapshot s))) msg s

  unfoldable pub unchanged : Option (S → V) → String → Test S (Test S (Unit {0}))
  unfolding still
  unchanged none msg s = (returned (pure tt), s)
  unchanged (some snapshot) msg s = (returned (still snapshot (snapshot s) msg), s)

  unfoldable pub redeem : Fixture S V → Driver S → Test S RedeemResult
  unfolding unchanged assert_if_set
  redeem f d = do
    check_input ← unchanged f.input_snapshot "Redeem mutated request input"
    answer ← call (d.redeem (plain_redeem f))
    check_input
    r ← want answer "Redeem failed: %v"
    settle (check_redeem (plain_redeem f) r f.original)
    fail_when (not (r.status == ResultStatus.success)) "eligible fixture did not redeem: %s"
    assert_if_set f (plain_redeem f) r
    pure r

  -- One round of `for range 2`.
  unfoldable pub evaluate_once :
      Fixture S V → Driver S → Test S (Unit {0}) → Test S (Unit {0}) → Test S (Unit {0})
  evaluate_once f d check_input check_consumption = do
    answer ← call (d.evaluate f.evaluate)
    r ← want answer "Evaluate failed: %v"
    settle (check_evaluation r f.original)
    fail_when (not r.eligible) "fixture is not eligible"
    check_input
    check_consumption

  -- Inspect with its checks.
  unfoldable pub inspect_once :
      Fixture S V → Driver S → Test S (Unit {0}) → Test S (Unit {0}) → Test S (Unit {0})
  inspect_once f d check_input check_consumption = do
    answer ← call (d.inspect f.inspect)
    check_input
    check_consumption
    info ← want answer "Inspect failed: %v"
    want (validate_benefit_info info) "invalid Inspect result: %v"
    fail_when (not (info.driver_type == d.redescribed.driver_type))
        "Inspect returned a different driver type"

  -- The subtest with the two checks at hand.
  unfoldable pub inspect_rounds :
      Fixture S V → Driver S → Test S (Unit {0}) → Test S (Unit {0}) → Test S (Unit {0})
  unfolding inspect_once evaluate_once redeem
  inspect_rounds f d check_input check_consumption = do
    inspect_once f d check_input check_consumption
    evaluate_once f d check_input check_consumption
    evaluate_once f d check_input check_consumption
    r ← redeem f d
    pure tt

  unfoldable pub inspect_evaluate_redeem : Fixture S V → Driver S → Test S (Unit {0})
  unfolding unchanged inspect_rounds
  inspect_evaluate_redeem f d = do
    check_input ← unchanged f.input_snapshot "Inspect/Evaluate mutated request input"
    check_consumption ← unchanged f.consumption_snapshot "Inspect/Evaluate consumed benefit"
    inspect_rounds f d check_input check_consumption

  -- The rest of the subtest once a reverser is at hand.
  unfoldable pub reverse_with :
      Fixture S V
      → ReverseRequest
      → (ReverseRequest → S → Result ReverseResult × S)
      → Test S (Unit {0})
  unfolding unchanged
  reverse_with f req reverser = do
    check_input ← unchanged f.input_snapshot "Reverse mutated request input"
    answer ← call (reverser req)
    check_input
    reversed ← want answer "Reverse failed: %v"
    settle (check_reverse req reversed)
    fail_when (not (reversed.status == ResultStatus.success)) "eligible fixture did not reverse: %s"
    elim f.assert_reversed [ none ↦ panic | some callback ↦ assert (callback req reversed) ]

  unfoldable pub reverse_redeemed : Fixture S V → Driver S → RedeemResult → Test S (Unit {0})
  unfolding reverse_with
  reverse_redeemed f d r = elim r.redemption [
    | none ↦ panic
    | some s ↦ elim d.reverse [
      | none ↦ panic
      | some reverser ↦ reverse_with f (reverse_of f s) reverser
    ]
  ]

  unfoldable pub redeem_reverse : Fixture S V → Driver S → Test S (Unit {0})
  unfolding redeem reverse_redeemed
  redeem_reverse f d =
      if declares_reverse d.redescribed
      then (redeem f d >>= reverse_redeemed f d)
      else skip "driver does not declare Reverse"

-- A subtest, on the fixture and the state that the factory makes for it.
pub record Prepared (S V : Type 0) : Type 0 where
  pub fixture : Fixture S V
  pub state : S

-- A panic ends the test binary.
unfoldable pub until_panic : List (Outcome (Unit {0})) → List (Outcome (Unit {0}))
until_panic [] = []
until_panic (panicked ∷ os) = panicked ∷ []
until_panic (o ∷ os) = o ∷ until_panic os

module _ {S V : Type 0} (json : Json) (deep_equal : V → V → Bool) where
  unfoldable pub subtest :
      (Fixture S V → Driver S → Test S (Unit {0})) → Prepared S V → Outcome (Unit {0})
  unfolding fresh
  subtest body p = ((fresh json p.fixture >>= body p.fixture) p.state).0

  unfoldable pub redeem_without_evaluate : Fixture S V → Driver S → Test S (Unit {0})
  unfolding redeem
  redeem_without_evaluate f d = do r ← redeem deep_equal f d; pure tt

  -- The outcomes of the subtests, the n-th on what the factory makes at its n-th call.
  unfoldable pub run : (ℕ → Prepared S V) → List (Outcome (Unit {0}))
  unfolding until_panic subtest redeem_without_evaluate
  run factory = until_panic (
      subtest (inspect_evaluate_redeem deep_equal) (factory 0)
      ∷ subtest redeem_without_evaluate (factory 1)
      ∷ subtest (redeem_reverse deep_equal) (factory 2)
      ∷ [])

-- go test reports success.
abbrev pub is_pass : Outcome (Unit {0}) → Bool
is_pass (returned u) = true
is_pass (skipped msg) = true
is_pass _ = false
