-- ===== src/Drivertest/Run/Passes.antt =====
-- When drivertest.Run passes, and whether it panics.
use go_benefit.Prelude.{
  ℕ, ◌≡◌, ◌≢◌, some, refl, sym, ap, ◌∙◌, ◌↔◌, Bool, true, false, [], ◌∷◌, all, All, arith, length,
}
use go_benefit.Text.{text_eq}
use go_benefit.Core.Config.{Json}
use go_benefit.Core.Results.{RedeemResult}
use go_benefit.Core.Driver.{Driver}
use go_benefit.Drivertest.Test.{Outcome, panicked, Test, >>=-of-returned}
use go_benefit.Drivertest.Run.{
  Fixture, declares_reverse, fresh, redeem_reverse, inspect_evaluate_redeem, subtest,
  redeem_without_evaluate, run, Prepared, is_pass,
}
use go_benefit.Drivertest.Run.Laws.{Redeems}
use go_benefit.Drivertest.Run.Inspect.{Accepts}
use go_benefit.Drivertest.Run.Reverse.{Ready, fresh_lem, Restores}
use go_benefit.Drivertest.Run.Safety.{
  fresh-Runs, inspect_evaluate_redeem-Runs, redeem_without_evaluate-Runs,
}
use go_benefit.Drivertest.Run.Outcomes.{
  until_panic-eq_of, >>=-returned, pass-not_failed, run-not_panicked, is_failed, inspect-passes_iff,
  plain-passes_iff, reverse-passes_iff, reverse-no_panic,
}

module _ {S V : Type 0} (json : Json) (deep_equal : V → V → Bool) where
  module _ (body : Fixture S V → Driver S → Test S (Unit {0})) (p : Prepared S V) where
    subtest_lem :
        (d : Driver S)
        → Ready json p.fixture d
        → subtest json deep_equal body p ≡ (body p.fixture d p.state).0
    unfolding subtest
    subtest_lem d ready =
        ap (λ o. o.0)
          (>>=-of-returned (fresh json p.fixture) (body p.fixture) p.state p.state d
            ((fresh_lem json p.fixture d p.state p.state).1 (ready, refl)))

    subtest-ready :
        is_failed (subtest json deep_equal body p) ≡ false → (d : Driver S) × Ready json p.fixture d
    unfolding subtest
    subtest-ready pass =
        let (d, e) =
          >>=-returned (fresh json p.fixture) (body p.fixture) p.state
            (fresh-Runs json p.fixture p.state) pass in
        (d, ((fresh_lem json p.fixture d p.state (fresh json p.fixture p.state).1).0 e).0)

    subtest-passes_iff :
        (Good : Driver S → Type 0)
        → ((d : Driver S)
            → Ready json p.fixture d
            → (is_pass (body p.fixture d p.state).0 ≡ true) ↔ Good d)
        → (is_pass (subtest json deep_equal body p) ≡ true)
          ↔ ((d : Driver S) × Ready json p.fixture d × Good d)
    subtest-passes_iff Good right = (
      λ pass.
          let (d, ready) = subtest-ready (pass-not_failed (subtest json deep_equal body p) pass) in
          (d, ready, (right d ready).0 (sym (ap is_pass (subtest_lem d ready)) ∙ pass)),
      λ (d, ready, good). ap is_pass (subtest_lem d ready) ∙ (right d ready).1 good,
    )

    subtest-no_panic :
        ((d : Driver S) → Ready json p.fixture d → (body p.fixture d p.state).0 ≢ panicked)
        → subtest json deep_equal body p ≢ panicked
    subtest-no_panic h panics =
        let (d, ready) = subtest-ready (ap is_failed panics) in
        h d ready (sym (subtest_lem d ready) ∙ panics)

  -- What the three subtests ask of the fixtures and drivers of the factory.
  pub record Conforms (factory : ℕ → Prepared S V) : Type 0 where
    pub first :
        (d : Driver S) × Ready json (factory 0).fixture d
        × Accepts deep_equal (factory 0).fixture d (factory 0).state
    pub second :
        (d : Driver S) × Ready json (factory 1).fixture d
        × ((r : RedeemResult) × Redeems deep_equal (factory 1).fixture d (factory 1).state r)
    pub third :
        (d : Driver S) × Ready json (factory 2).fixture d
        × (declares_reverse d.redescribed ≡ true
            → Restores deep_equal (factory 2).fixture d (factory 2).state)

  module _ (factory : ℕ → Prepared S V) where
    abbrev inspecting : Outcome (Unit {0})
    inspecting = subtest json deep_equal (inspect_evaluate_redeem deep_equal) (factory 0)

    abbrev redeeming : Outcome (Unit {0})
    redeeming = subtest json deep_equal (redeem_without_evaluate json deep_equal) (factory 1)

    abbrev reversing : Outcome (Unit {0})
    reversing = subtest json deep_equal (redeem_reverse deep_equal) (factory 2)

    inspecting-no_panic : inspecting ≢ panicked
    inspecting-no_panic = subtest-no_panic (inspect_evaluate_redeem deep_equal) (factory 0) (λ d _.
        run-not_panicked
          (inspect_evaluate_redeem-Runs deep_equal (factory 0).fixture d (factory 0).state))

    redeeming-no_panic : redeeming ≢ panicked
    redeeming-no_panic =
        subtest-no_panic (redeem_without_evaluate json deep_equal) (factory 1) (λ d _.
          run-not_panicked
            (redeem_without_evaluate-Runs deep_equal (factory 1).fixture d json (factory 1).state))

    run_lem : run json deep_equal factory ≡ inspecting ∷ redeeming ∷ reversing ∷ []
    unfolding run
    run_lem =
        until_panic-eq_of inspecting redeeming reversing inspecting-no_panic redeeming-no_panic

    inspecting_iff : (is_pass inspecting ≡ true) ↔ (
        (d : Driver S) × Ready json (factory 0).fixture d
        × Accepts deep_equal (factory 0).fixture d (factory 0).state)
    inspecting_iff =
        subtest-passes_iff (inspect_evaluate_redeem deep_equal) (factory 0)
          (λ d. Accepts deep_equal (factory 0).fixture d (factory 0).state)
          (λ d ready. inspect-passes_iff deep_equal (factory 0).fixture d (factory 0).state)

    redeeming_iff : (is_pass redeeming ≡ true) ↔ (
        (d : Driver S) × Ready json (factory 1).fixture d
        × ((r : RedeemResult) × Redeems deep_equal (factory 1).fixture d (factory 1).state r))
    redeeming_iff =
        subtest-passes_iff (redeem_without_evaluate json deep_equal) (factory 1)
          (λ d. (r : RedeemResult) × Redeems deep_equal (factory 1).fixture d (factory 1).state r)
          (λ d ready. plain-passes_iff deep_equal (factory 1).fixture d (factory 1).state json)

    reversing_iff : (is_pass reversing ≡ true) ↔ (
        (d : Driver S) × Ready json (factory 2).fixture d
        × (declares_reverse d.redescribed ≡ true
            → Restores deep_equal (factory 2).fixture d (factory 2).state))
    reversing_iff =
        subtest-passes_iff (redeem_reverse deep_equal) (factory 2)
          (λ d.
            declares_reverse d.redescribed ≡ true
            → Restores deep_equal (factory 2).fixture d (factory 2).state)
          (λ d ready. reverse-passes_iff deep_equal (factory 2).fixture d (factory 2).state)

    module _
        (constant : (n : ℕ) (d : Driver S)
          → (factory n).fixture.driver ≡ some d
          → d.redescribed ≡ d.descriptor) where
      reversing-no_panic : reversing ≢ panicked
      reversing-no_panic = subtest-no_panic (redeem_reverse deep_equal) (factory 2) (λ d ready.
          reverse-no_panic deep_equal (factory 2).fixture d (factory 2).state json ready
            (constant 2 d ready.driver))

      -- Where Descriptor of each driver returns the same at every call, as its interface documents,
      -- then whatever else the factory makes and its drivers answer, no subtest panics, so that Run
      -- goes through all three of them: the result that is reversed has a redemption, the driver whose
      -- Reverse is called implements it, and the assertion that is called is set.
      pub run-never_panics :
          (All (λ o. o ≢ panicked) (run json deep_equal factory))
          × (length (run json deep_equal factory) ≡ 3)
      run-never_panics =
          rw run_lem ((inspecting-no_panic, (redeeming-no_panic, (reversing-no_panic, tt))), refl)

    -- Run passes exactly on the factories whose three fixtures have drivers with a valid
    -- descriptor that implement Reverse and have both assertions set where they declare it, such
    -- that the first is inspected as valid information of the type in its descriptor, evaluated
    -- twice as eligible by results that pass CheckEvaluation, with no watched snapshot changed, and
    -- redeemed, the second is redeemed without an evaluation token, and the third, if it declares
    -- Reverse, is redeemed and reversed. The type, and what the third declares, are read from
    -- Descriptor as it answers when it is called again. To be redeemed or reversed is to answer
    -- with a success that passes its check, with the request input kept, and with the assertion of
    -- the fixture, if set, passing.
    pub run-passes_iff : (all is_pass (run json deep_equal factory) ≡ true) ↔ Conforms factory
    run-passes_iff = rw run_lem (
      λ pass. record {
        first = inspecting_iff.0 (ground arith);
        second = redeeming_iff.0 (ground arith);
        third = reversing_iff.0 (ground arith);
      },
      λ h.
          ground
            (arith, inspecting_iff.1 h.first, redeeming_iff.1 h.second, reversing_iff.1 h.third),
    )
