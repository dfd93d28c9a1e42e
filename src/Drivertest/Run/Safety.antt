-- ===== src/Drivertest/Run/Safety.antt =====
-- Panics and skips in the subtests on a driver that is ready.
use go_benefit.Prelude.{
  ◌≡◌, refl, ap, inl, inr, Bool, true, false, not, Option, some, none, arith, is_some, Option-cases,
  ◌==◌, String,
}
use go_benefit.Text.{text_eq}
use go_benefit.Errors.{Result}
use go_benefit.Core.Config.{Json}
use go_benefit.Core.Status.{result_status_eq}
use go_benefit.Core.Info.{BenefitInfo, ReverseRequest, validate_benefit_info}
use go_benefit.Core.Results.{Redemption, RedeemResult, ReverseResult}
use go_benefit.Core.Driver.{Driver}
use go_benefit.Drivertest.Test.{
  Outcome, returned, failed, skipped, panicked, Test, ◌>>=◌, ◌>>◌, pure, want, fail_when,
}
use go_benefit.Drivertest.Run.{
  Fixture, declares_reverse, check_driver, fresh, unchanged, still, redeem, reverse_of,
  reverse_with, reverse_redeemed, plain_redeem, evaluate_once, inspect_once, inspect_rounds,
  inspect_evaluate_redeem, redeem_without_evaluate,
}
use go_benefit.Drivertest.Run.Laws.{redeem_lem}
use go_benefit.Drivertest.Run.Reverse.{Ready, success-redemption}

-- A test that is run to its end, or fails: it neither skips nor panics.
abbrev pub is_run : {A : Type 0} → Outcome A → Bool
is_run (returned a) = true
is_run (failed msg) = true
is_run _ = false

abbrev pub Runs : {S A : Type 0} → Test S A → S → Type 0
Runs m s = is_run (m s).0 ≡ true

outcome-Runs :
    {S A B : Type 0} (o : Outcome A) (u : S) (g : A → Test S B)
    → is_run o ≡ true
    → ((a : A) → o ≡ returned a → Runs (g a) u)
    → Runs (◌>>=◌ (λ s. (o, u)) g) u
outcome-Runs (returned a) u g h k = k a refl
outcome-Runs (failed msg) u g h k = refl
outcome-Runs (skipped msg) u g h k = absurd (ground arith)
outcome-Runs panicked u g h k = absurd (ground arith)

pub >>=-Runs :
    {S A B : Type 0} (m : Test S A) (g : A → Test S B) (s : S)
    → Runs m s
    → ((a : A) (t : S) → m s ≡ (returned a, t) → Runs (g a) t)
    → Runs (m >>= g) s
>>=-Runs m g s h k =
    outcome-Runs (m s).0 (m s).1 g h (λ a e. k a (m s).1 (ap (λ o. (o, (m s).1)) e))

pub fresh-Runs : {S V : Type 0} (json : Json) (f : Fixture S V) (s : S) → Runs (fresh json f) s
unfolding fresh check_driver
fresh-Runs json f s = elim (Option-cases f.driver) [
  | inl missing ↦ ground arith
  | inr (e, present) ↦ ground arith
]

module _ {S V : Type 0} (deep_equal : V → V → Bool) (f : Fixture S V) (d : Driver S) where
  pub redeem-Runs : (s : S) → Runs (redeem deep_equal f d) s
  unfolding redeem
  redeem-Runs s = elim (Option-cases f.input_snapshot) [
    | inl plain ↦ elim (Option-cases f.assert_redeemed) [
      | inl unasked ↦ ground arith
      | inr (callback, asked) ↦ ground arith
    ]
    | inr (snapshot, taken) ↦ elim (Option-cases f.assert_redeemed) [
      | inl unasked ↦ ground arith
      | inr (callback, asked) ↦ ground arith
    ]
  ]

  -- What inspect_once makes of the answer.
  abbrev inspected : Result BenefitInfo → Test S (Unit {0})
  inspected answer = do
    info ← want answer "Inspect failed: %v"
    want (validate_benefit_info info) "invalid Inspect result: %v"
    fail_when (not (info.driver_type == d.redescribed.driver_type))
        "Inspect returned a different driver type"

  module _ (check_input check_consumption : Test S (Unit {0}))
      (input_safe : (s : S) → Runs check_input s)
      (consumption_safe : (s : S) → Runs check_consumption s) where
    evaluate_once-Runs :
        (s : S) → Runs (evaluate_once deep_equal f d check_input check_consumption) s
    unfolding evaluate_once
    evaluate_once-Runs s = ground (
      arith,
      >>=-Runs check_input (λ _. check_consumption) (d.evaluate f.evaluate s).1
          (input_safe (d.evaluate f.evaluate s).1) (λ a t e. consumption_safe t),
    )

    inspect_once-Runs : (s : S) → Runs (inspect_once deep_equal f d check_input check_consumption) s
    unfolding inspect_once
    inspect_once-Runs s =
        >>=-Runs check_input (λ _. check_consumption >> inspected (d.inspect f.inspect s).0)
          (d.inspect f.inspect s).1 (input_safe (d.inspect f.inspect s).1)
          (λ a t e.
            >>=-Runs check_consumption (λ _. inspected (d.inspect f.inspect s).0) t
              (consumption_safe t) (λ b u k. ground arith))

  reverse_with-Runs :
      (req : ReverseRequest) (reverser : ReverseRequest → S → Result ReverseResult × S) (s : S)
      → is_some f.assert_reversed ≡ true
      → Runs (reverse_with deep_equal f req reverser) s
  unfolding reverse_with unchanged still
  reverse_with-Runs req reverser s set = elim (Option-cases f.input_snapshot) [
    | inl plain ↦ elim (Option-cases f.assert_reversed) [
      | inl unasked ↦ ground arith
      | inr (callback, asked) ↦ ground arith
    ]
    | inr (snapshot, taken) ↦ elim (Option-cases f.assert_reversed) [
      | inl unasked ↦ ground arith
      | inr (callback, asked) ↦ ground arith
    ]
  ]

  module _ (check_input check_consumption : Test S (Unit {0}))
      (input_safe : (s : S) → Runs check_input s)
      (consumption_safe : (s : S) → Runs check_consumption s) where
    abbrev look : Test S (Unit {0})
    look = inspect_once deep_equal f d check_input check_consumption

    abbrev round : Test S (Unit {0})
    round = evaluate_once deep_equal f d check_input check_consumption

    inspect_rounds-Runs :
        (s : S) → Runs (inspect_rounds deep_equal f d check_input check_consumption) s
    unfolding inspect_rounds
    inspect_rounds-Runs s =
        >>=-Runs look (λ _. round >> (round >> (redeem deep_equal f d >>= λ r. pure tt))) s
          (inspect_once-Runs check_input check_consumption input_safe consumption_safe s)
          (λ _ s1 _.
            >>=-Runs round (λ _. round >> (redeem deep_equal f d >>= λ r. pure tt)) s1
              (evaluate_once-Runs check_input check_consumption input_safe consumption_safe s1)
              (λ _ s2 _.
                >>=-Runs round (λ _. redeem deep_equal f d >>= λ r. pure tt) s2
                  (evaluate_once-Runs check_input check_consumption input_safe consumption_safe s2)
                  (λ _ s3 _.
                    >>=-Runs (redeem deep_equal f d) (λ r. pure tt) s3 (redeem-Runs s3)
                      (λ r t _. refl))))

  watch-Runs :
      (o : Option (S → V)) (msg : String) (s t u : S) (check : Test S (Unit {0}))
      → unchanged deep_equal o msg s ≡ (returned check, t)
      → Runs check u
  unfolding unchanged still
  watch-Runs none msg s t u check e = ground arith
  watch-Runs (some snapshot) msg s t u check e = ground arith

  unchanged-Runs : (o : Option (S → V)) (msg : String) (s : S) → Runs (unchanged deep_equal o msg) s
  unfolding unchanged
  unchanged-Runs none msg s = refl
  unchanged-Runs (some snapshot) msg s = refl

  abbrev msg_input : String
  msg_input = "Inspect/Evaluate mutated request input"

  abbrev msg_consumption : String
  msg_consumption = "Inspect/Evaluate consumed benefit"

  pub inspect_evaluate_redeem-Runs : (s : S) → Runs (inspect_evaluate_redeem deep_equal f d) s
  unfolding inspect_evaluate_redeem
  inspect_evaluate_redeem-Runs s =
      >>=-Runs (unchanged deep_equal f.input_snapshot msg_input)
        (λ check_input.
          unchanged deep_equal f.consumption_snapshot msg_consumption
          >>= inspect_rounds deep_equal f d check_input)
        s (unchanged-Runs f.input_snapshot msg_input s)
        (λ check_input s1 e1.
          >>=-Runs (unchanged deep_equal f.consumption_snapshot msg_consumption)
            (inspect_rounds deep_equal f d check_input) s1
            (unchanged-Runs f.consumption_snapshot msg_consumption s1)
            (λ check_consumption s2 e2.
              inspect_rounds-Runs check_input check_consumption
                (λ u. watch-Runs f.input_snapshot msg_input s s1 u check_input e1)
                (λ u.
                  watch-Runs f.consumption_snapshot msg_consumption s1 s2 u check_consumption e2)
                s2))

  pub redeem_without_evaluate-Runs :
      (json : Json) (s : S) → Runs (redeem_without_evaluate json deep_equal f d) s
  unfolding redeem_without_evaluate
  redeem_without_evaluate-Runs json s =
      >>=-Runs (redeem deep_equal f d) (λ r. pure tt) s (redeem-Runs s) (λ r t _. refl)

  module _ (json : Json) (ready : Ready json f d)
      (declared : declares_reverse d.descriptor ≡ true) where
    reverse_redeemed-Runs :
        (r : RedeemResult) (c : Redemption) (s : S)
        → r.redemption ≡ some c
        → Runs (reverse_redeemed deep_equal f d r) s
    unfolding reverse_redeemed
    reverse_redeemed-Runs r c s present = elim (Option-cases d.reverse) [
      | inl missing ↦ absurd (ground (arith, ready.reverser declared))
      | inr (reverser, implemented) ↦
          rw (present, implemented)
            (reverse_with-Runs (reverse_of f c) reverser s (ready.checks_reversed declared))
    ]

    pub reverses-Runs : (s : S) → Runs (redeem deep_equal f d >>= reverse_redeemed deep_equal f d) s
    reverses-Runs s =
        >>=-Runs (redeem deep_equal f d) (reverse_redeemed deep_equal f d) s (redeem-Runs s)
          (λ r t e.
            let (h, _) = (redeem_lem deep_equal f d s t r).0 e in
            let (c, present) =
              success-redemption (plain_redeem f) r f.original h.checked h.success in
            reverse_redeemed-Runs r c t present)
