-- ===== src/Drivertest/Run/Laws.antt =====
-- What a fixture and a driver must do for the subtests to pass.
use go_benefit.Prelude.{
  ◌≡◌, ◌↔◌, inl, inr, Bool, true, Option, some, none, arith, Option-cases, Bool-cases, String,
}
use go_benefit.Text.{text_eq}
use go_benefit.Errors.{ok}
use go_benefit.Errors.Laws.{Result-cases}
use go_benefit.Core.Status.{ResultStatus, result_status_eq}
use go_benefit.Core.Info.{RedeemRequest}
use go_benefit.Core.Results.{EvaluationResult, RedeemResult}
use go_benefit.Core.Driver.{Driver}
use go_benefit.Drivertest.{Verdict, passed, check_evaluation, check_redeem}
use go_benefit.Drivertest.Test.{returned, Test, pure}
use go_benefit.Drivertest.Run.{Fixture, plain_redeem, still, redeem, evaluate_once}

module _ {S V : Type 0} (deep_equal : V → V → Bool) (f : Fixture S V) (d : Driver S) where
  -- A snapshot, if there is one, is the same in both states.
  abbrev pub Same : Option (S → V) → S → S → Type 0
  Same none s t = Unit
  Same (some snapshot) s t = deep_equal (snapshot s) (snapshot t) ≡ true

  abbrev pub after_redeem : S → S
  after_redeem s = (d.redeem (plain_redeem f) s).1

  -- The assertion on the provider, if there is one, passes.
  abbrev pub Confirmed :
      Option (RedeemRequest → RedeemResult → S → Verdict × S) → RedeemResult → S → Type 0
  Confirmed none r s = Unit
  Confirmed (some callback) r s = (callback (plain_redeem f) r s).0 ≡ passed

  abbrev pub settled :
      Option (RedeemRequest → RedeemResult → S → Verdict × S) → RedeemResult → S → S
  settled none r s = s
  settled (some callback) r s = (callback (plain_redeem f) r s).1

  -- In state s the driver redeems the benefit, and the result is r.
  pub record Redeems (s : S) (r : RedeemResult) : Type 0 where
    pub answer : (d.redeem (plain_redeem f) s).0 ≡ ok r
    pub input_kept : Same f.input_snapshot s (after_redeem s)
    pub checked : check_redeem (plain_redeem f) r f.original ≡ passed
    pub success : r.status ≡ ResultStatus.success
    pub confirmed : Confirmed f.assert_redeemed r (after_redeem s)

  pub redeem_lem :
      (s t : S) (r : RedeemResult)
      → (redeem deep_equal f d s ≡ (returned r, t))
        ↔ (Redeems s r × (t ≡ settled f.assert_redeemed r (after_redeem s)))
  unfolding redeem
  redeem_lem s t r = elim (Option-cases f.input_snapshot) [
    | inl plain ↦ elim (Option-cases f.assert_redeemed) [
      | inl unasked ↦ ground arith
      | inr (callback, asked) ↦ ground arith
    ]
    | inr (snapshot, taken) ↦ elim (Option-cases f.assert_redeemed) [
      | inl unasked ↦ ground arith
      | inr (callback, asked) ↦ ground arith
    ]
  ]

  -- The check that `unchanged` hands out in state s.
  abbrev pub watch : Option (S → V) → S → String → Test S (Unit {0})
  watch none s msg = pure tt
  watch (some snapshot) s msg = still deep_equal snapshot (snapshot s) msg

  abbrev pub after_evaluate : S → S
  after_evaluate s = (d.evaluate f.evaluate s).1

  -- In state s the driver evaluates the benefit as eligible, and nothing has changed since the start.
  pub record Evaluates (start s : S) (r : EvaluationResult) : Type 0 where
    pub answer : (d.evaluate f.evaluate s).0 ≡ ok r
    pub checked : check_evaluation r f.original ≡ passed
    pub eligible : r.eligible ≡ true
    pub input_kept : Same f.input_snapshot start (after_evaluate s)
    pub consumption_kept : Same f.consumption_snapshot start (after_evaluate s)

  module _ (start : S) (msg_input msg_consumption : String) where
    abbrev pub round : Test S (Unit {0})
    round =
        evaluate_once deep_equal f d (watch f.input_snapshot start msg_input)
          (watch f.consumption_snapshot start msg_consumption)

    pub round-from :
        (s t : S)
        → round s ≡ (returned tt, t)
        → ((r : EvaluationResult) × Evaluates start s r) × (t ≡ after_evaluate s)
    unfolding evaluate_once still
    round-from s t h = elim (Result-cases (d.evaluate f.evaluate s).0) [
      | inl (e, failure) ↦ absurd (ground arith)
      | inr (r, answer) ↦ elim (Bool-cases r.eligible) [
        | inr ineligible ↦ absurd (ground arith)
        | inl eligible ↦ elim (Option-cases f.input_snapshot) [
          | inl plain ↦ elim (Option-cases f.consumption_snapshot) [
            | inl free ↦ ((r, ground arith), ground arith)
            | inr (c, watched) ↦ ((r, ground arith), ground arith)
          ]
          | inr (g, taken) ↦ elim (Option-cases f.consumption_snapshot) [
            | inl free ↦ ((r, ground arith), ground arith)
            | inr (c, watched) ↦ ((r, ground arith), ground arith)
          ]
        ]
      ]
    ]

    pub round_of :
        (s : S) (r : EvaluationResult)
        → Evaluates start s r
        → round s ≡ (returned tt, after_evaluate s)
    unfolding evaluate_once still
    round_of s r h = elim (Option-cases f.input_snapshot) [
      | inl plain ↦ elim (Option-cases f.consumption_snapshot) [
        | inl free ↦ ground arith
        | inr (c, watched) ↦ ground arith
      ]
      | inr (g, taken) ↦ elim (Option-cases f.consumption_snapshot) [
        | inl free ↦ ground arith
        | inr (c, watched) ↦ ground arith
      ]
    ]
