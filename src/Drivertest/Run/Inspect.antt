-- ===== src/Drivertest/Run/Inspect.antt =====
-- The subtest that inspects, evaluates twice and redeems.
use go_benefit.Prelude.{ap}
use go_benefit.Prelude.{sym}
use go_benefit.Drivertest.Test.{>>=-of-returned}
use go_benefit.Prelude.{
  ◌≡◌, refl, ◌∙◌, sym, ◌↔◌, inl, inr, Bool, Option, some, none, arith, Option-cases, eq_iff, String,
}
use mathlib.Core.Path.{subst}
use go_benefit.Text.{text_eq}
use go_benefit.Errors.{ok}
use go_benefit.Errors.Laws.{Result-cases}
use go_benefit.Core.Info.{BenefitInfo, validate_benefit_info}
use go_benefit.Core.Results.{EvaluationResult, RedeemResult}
use go_benefit.Core.Driver.{Driver}
use go_benefit.Drivertest.Test.{returned, Test, ◌>>=◌, ◌>>◌, pure, >>=-eq-returned}
use go_benefit.Drivertest.Run.{
  Fixture, unchanged, still, redeem, inspect_once, inspect_rounds, inspect_evaluate_redeem,
}
use go_benefit.Drivertest.Run.Laws.{
  Same, watch, round, round-from, round_of, Evaluates, after_evaluate, Redeems, after_redeem,
  settled, redeem_lem,
}

module _ {S V : Type 0} (deep_equal : V → V → Bool) (f : Fixture S V) (d : Driver S) where
  abbrev pub after_inspect : S → S
  after_inspect s = (d.inspect f.inspect s).1

  -- In state s the driver inspects the benefit as info, and changes nothing.
  pub record Inspects (s : S) (info : BenefitInfo) : Type 0 where
    pub answer : (d.inspect f.inspect s).0 ≡ ok info
    pub input_kept : Same deep_equal f d f.input_snapshot s (after_inspect s)
    pub consumption_kept : Same deep_equal f d f.consumption_snapshot s (after_inspect s)
    pub valid : validate_benefit_info info ≡ ok tt
    pub own_type : info.driver_type ≡ d.redescribed.driver_type

  abbrev msg_input : String
  msg_input = "Inspect/Evaluate mutated request input"

  abbrev msg_consumption : String
  msg_consumption = "Inspect/Evaluate consumed benefit"

  unchanged_lem :
      (o : Option (S → V)) (msg : String) (s : S)
      → unchanged deep_equal o msg s ≡ (returned (watch deep_equal f d o s msg), s)
  unfolding unchanged
  unchanged_lem none msg s = refl
  unchanged_lem (some snapshot) msg s = refl

  module _ (start : S) where
    abbrev watch_input : Test S (Unit {0})
    watch_input = watch deep_equal f d f.input_snapshot start msg_input

    abbrev watch_consumption : Test S (Unit {0})
    watch_consumption = watch deep_equal f d f.consumption_snapshot start msg_consumption

    abbrev look : Test S (Unit {0})
    look = inspect_once deep_equal f d watch_input watch_consumption

  look-from :
      (s t : S)
      → look s s ≡ (returned tt, t)
      → ((info : BenefitInfo) × Inspects s info) × (t ≡ after_inspect s)
  unfolding inspect_once still
  look-from s t h = elim (Result-cases (d.inspect f.inspect s).0) [
    | inl (e, failure) ↦ absurd (ground arith)
    | inr (info, answer) ↦ elim (Option-cases f.input_snapshot) [
      | inl plain ↦ elim (Option-cases f.consumption_snapshot) [
        | inl free ↦ (
          (info, ground (arith, eq_iff info.driver_type d.redescribed.driver_type)),
          ground arith,
        )
        | inr (c, watched) ↦ (
          (info, ground (arith, eq_iff info.driver_type d.redescribed.driver_type)),
          ground arith,
        )
      ]
      | inr (g, taken) ↦ elim (Option-cases f.consumption_snapshot) [
        | inl free ↦ (
          (info, ground (arith, eq_iff info.driver_type d.redescribed.driver_type)),
          ground arith,
        )
        | inr (c, watched) ↦ (
          (info, ground (arith, eq_iff info.driver_type d.redescribed.driver_type)),
          ground arith,
        )
      ]
    ]
  ]

  look_of :
      (s : S) (info : BenefitInfo) → Inspects s info → look s s ≡ (returned tt, after_inspect s)
  unfolding inspect_once still
  look_of s info h = elim (Option-cases f.input_snapshot) [
    | inl plain ↦ elim (Option-cases f.consumption_snapshot) [
      | inl free ↦ ground (arith, eq_iff info.driver_type d.redescribed.driver_type)
      | inr (c, watched) ↦ ground (arith, eq_iff info.driver_type d.redescribed.driver_type)
    ]
    | inr (g, taken) ↦ elim (Option-cases f.consumption_snapshot) [
      | inl free ↦ ground (arith, eq_iff info.driver_type d.redescribed.driver_type)
      | inr (c, watched) ↦ ground (arith, eq_iff info.driver_type d.redescribed.driver_type)
    ]
  ]

  -- The state in which the benefit is redeemed.
  abbrev pub after_rounds : S → S
  after_rounds s = after_evaluate deep_equal f d (after_evaluate deep_equal f d (after_inspect s))

  -- The driver inspects the benefit, evaluates it twice as eligible with nothing changed since the
  -- start, and redeems it.
  pub record Accepts (s : S) : Type 0 where
    pub info : BenefitInfo
    pub inspected : Inspects s info
    pub first : EvaluationResult
    pub evaluated : Evaluates deep_equal f d s (after_inspect s) first
    pub second : EvaluationResult
    pub evaluated_again :
        Evaluates deep_equal f d s (after_evaluate deep_equal f d (after_inspect s)) second
    pub r : RedeemResult
    pub redeemed : Redeems deep_equal f d (after_rounds s) r

  -- The steps of the subtest after the snapshots of state s are taken, the last first.
  module _ (s : S) where
    abbrev evaluation : Test S (Unit {0})
    evaluation = round deep_equal f d s msg_input msg_consumption

    abbrev redemption : Test S (Unit {0})
    redemption = redeem deep_equal f d >>= λ r. pure tt

    abbrev from_second : Test S (Unit {0})
    from_second = evaluation >> redemption

    abbrev from_first : Test S (Unit {0})
    from_first = evaluation >> from_second

    abbrev rounds : Test S (Unit {0})
    rounds = inspect_rounds deep_equal f d (watch_input s) (watch_consumption s)

  inspect_rounds_lem : (s t : S) → rounds s t ≡ (look s >> from_first s) t
  unfolding inspect_rounds
  inspect_rounds_lem s t = refl

  inspect_evaluate_redeem_lem : (s : S) → inspect_evaluate_redeem deep_equal f d s ≡ rounds s s
  unfolding inspect_evaluate_redeem
  inspect_evaluate_redeem_lem s =
      >>=-of-returned (unchanged deep_equal f.input_snapshot msg_input)
        (λ check_input.
          unchanged deep_equal f.consumption_snapshot msg_consumption
          >>= inspect_rounds deep_equal f d check_input)
        s s (watch_input s) (unchanged_lem f.input_snapshot msg_input s)
      ∙ >>=-of-returned (unchanged deep_equal f.consumption_snapshot msg_consumption)
          (inspect_rounds deep_equal f d (watch_input s)) s s (watch_consumption s)
          (unchanged_lem f.consumption_snapshot msg_consumption s)

  rounds-from : (s t : S) → (look s >> from_first s) s ≡ (returned tt, t) → Accepts s
  rounds-from s t h =
      let (_, s1, looked, k1) = >>=-eq-returned (look s) (λ _. from_first s) s t tt h in
      let ((info, inspected), e1) = look-from s s1 looked in
      let (_, s2, evaluated, k2) = >>=-eq-returned (evaluation s) (λ _. from_second s) s1 t tt k1 in
      let ((first, right), e2) =
        round-from deep_equal f d s msg_input msg_consumption s1 s2 evaluated in
      let (_, s3, again, k3) = >>=-eq-returned (evaluation s) (λ _. redemption s) s2 t tt k2 in
      let ((second, right_again), e3) =
        round-from deep_equal f d s msg_input msg_consumption s2 s3 again in
      let (r, s4, redeeming, k4) =
        >>=-eq-returned (redeem deep_equal f d) (λ r. pure tt) s3 t tt k3 in
      let at1 = e1 in
      let at2 = e2 ∙ ap (after_evaluate deep_equal f d) at1 in
      let at3 = e3 ∙ ap (after_evaluate deep_equal f d) at2 in
      record {
        info = info;
        inspected = inspected;
        first = first;
        evaluated = subst (λ u. Evaluates deep_equal f d s u first) at1 right;
        second = second;
        evaluated_again = subst (λ u. Evaluates deep_equal f d s u second) at2 right_again;
        r = r;
        redeemed =
            subst (λ u. Redeems deep_equal f d u r) at3
              ((redeem_lem deep_equal f d s3 s4 r).0 redeeming).0;
      }

  module _ (s : S) (h : Accepts s) where
    -- The state that the subtest leaves.
    abbrev final : S
    final =
        settled deep_equal f d f.assert_redeemed h.r (after_redeem deep_equal f d (after_rounds s))

    rounds_of : (look s >> from_first s) s ≡ (returned tt, final)
    rounds_of =
        >>=-of-returned (look s) (λ _. from_first s) s (after_inspect s) tt
          (look_of s h.info h.inspected)
        ∙ >>=-of-returned (evaluation s) (λ _. from_second s) (after_inspect s)
            (after_evaluate deep_equal f d (after_inspect s)) tt
            (round_of deep_equal f d s msg_input msg_consumption (after_inspect s) h.first
              h.evaluated)
        ∙ >>=-of-returned (evaluation s) (λ _. redemption s)
            (after_evaluate deep_equal f d (after_inspect s)) (after_rounds s) tt
            (round_of deep_equal f d s msg_input msg_consumption
              (after_evaluate deep_equal f d (after_inspect s)) h.second h.evaluated_again)
        ∙ >>=-of-returned (redeem deep_equal f d) (λ r. pure tt) (after_rounds s) final h.r
            ((redeem_lem deep_equal f d (after_rounds s) final h.r).1 (h.redeemed, refl))

  -- The subtest that inspects, evaluates twice and redeems returns exactly where the driver inspects the
  -- benefit as valid information of its own type, evaluates it twice as eligible, no snapshot of input or
  -- consumption having changed since the start, and then redeems it with success by a result that
  -- check_redeem passes, with the input kept, and the assertion of the fixture, if there is one, passes.
  pub inspect_evaluate_redeem-returns_iff :
      (s : S)
      → ((t : S) × (inspect_evaluate_redeem deep_equal f d s ≡ (returned tt, t))) ↔ Accepts s
  inspect_evaluate_redeem-returns_iff s = (
    λ (t, h).
        rounds-from s t (sym (inspect_rounds_lem s s) ∙ sym (inspect_evaluate_redeem_lem s) ∙ h),
    λ h. (final s h, inspect_evaluate_redeem_lem s ∙ inspect_rounds_lem s s ∙ rounds_of s h),
  )
