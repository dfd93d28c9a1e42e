-- ===== src/Drivertest/Run/Outcomes.antt =====
-- The outcomes of the subtests on a driver that is ready.
use go_benefit.Prelude.{
  ◌≡◌, ◌≢◌, refl, ap, ◌↔◌, inl, inr, Bool, true, false, List, [], ◌∷◌, arith, Bool-cases,
}
use go_benefit.Text.{text_eq}
use go_benefit.Core.Config.{Json}
use go_benefit.Core.Results.{RedeemResult}
use go_benefit.Core.Driver.{Driver}
use go_benefit.Drivertest.Test.{
  Outcome, returned, failed, skipped, panicked, Test, ◌>>=◌, pure, >>=-eq-returned, >>=-of-returned,
}
use go_benefit.Drivertest.Run.{
  Fixture, declares_reverse, redeem, redeem_reverse, inspect_evaluate_redeem,
  redeem_without_evaluate, until_panic, is_pass,
}
use go_benefit.Drivertest.Run.Laws.{Redeems, redeem_lem, settled, after_redeem}
use go_benefit.Drivertest.Run.Inspect.{Accepts, inspect_evaluate_redeem-returns_iff}
use go_benefit.Drivertest.Run.Reverse.{Ready, Restores, redeem_reverse-returns_iff}
use go_benefit.Drivertest.Run.Skips.{is_skipped, reverses-not_skipped}
use go_benefit.Drivertest.Run.Safety.{
  is_run, Runs, inspect_evaluate_redeem-Runs, redeem_without_evaluate-Runs, reverses-Runs,
}

-- A test that passes and does not skip returns.
passes-returned :
    {S : Type 0} (m : Test S (Unit {0})) (s : S)
    → is_skipped (m s).0 ≡ false
    → is_pass (m s).0 ≡ true
    → (t : S) × (m s ≡ (returned tt, t))
passes-returned {S = S} m s h p = go (m s).0 refl
  where
    go : (o : Outcome (Unit {0})) → (m s).0 ≡ o → (t : S) × (m s ≡ (returned tt, t))
    go (returned u) e = ((m s).1, ap (λ o. (o, (m s).1)) e)
    go (failed msg) e = absurd (ground arith)
    go (skipped msg) e = absurd (ground arith)
    go panicked e = absurd (ground arith)

abbrev pub is_failed : {A : Type 0} → Outcome A → Bool
is_failed (failed msg) = true
is_failed _ = false

-- Before its last outcome, a list without a panic is gone through.
until_panic-not_panicked :
    (o : Outcome (Unit {0})) (os : List (Outcome (Unit {0})))
    → o ≢ panicked
    → until_panic (o ∷ os) ≡ o ∷ until_panic os
unfolding until_panic
until_panic-not_panicked (returned u) os h = refl
until_panic-not_panicked (failed msg) os h = refl
until_panic-not_panicked (skipped msg) os h = refl
until_panic-not_panicked panicked os h = absurd (h refl)

until_panic-last : (o : Outcome (Unit {0})) → until_panic (o ∷ []) ≡ o ∷ []
unfolding until_panic
until_panic-last (returned u) = refl
until_panic-last (failed msg) = refl
until_panic-last (skipped msg) = refl
until_panic-last panicked = refl

pub until_panic-eq_of :
    (a b c : Outcome (Unit {0}))
    → a ≢ panicked
    → b ≢ panicked
    → until_panic (a ∷ b ∷ c ∷ []) ≡ a ∷ b ∷ c ∷ []
until_panic-eq_of a b c h k =
    rw
      (
        until_panic-not_panicked a (b ∷ c ∷ []) h,
        until_panic-not_panicked b (c ∷ []) k,
        until_panic-last c,
      )
      refl

outcome-returned :
    {S A : Type 0} (o : Outcome A) (u : S) (g : A → Test S (Unit {0}))
    → is_run o ≡ true
    → is_failed (◌>>=◌ (λ s. (o, u)) g u).0 ≡ false
    → (a : A) × (o ≡ returned a)
outcome-returned (returned a) u g h p = (a, refl)
outcome-returned (failed msg) u g h p = absurd (ground arith)
outcome-returned (skipped msg) u g h p = absurd (ground arith)
outcome-returned panicked u g h p = absurd (ground arith)

-- A chain does not fail only after a first step that returns.
pub >>=-returned :
    {S A : Type 0} (m : Test S A) (g : A → Test S (Unit {0})) (s : S)
    → Runs m s
    → is_failed ((m >>= g) s).0 ≡ false
    → (a : A) × (m s ≡ (returned a, (m s).1))
>>=-returned m g s h p =
    let (a, e) = outcome-returned (m s).0 (m s).1 g h p in (a, ap (λ o. (o, (m s).1)) e)

pub pass-not_failed : (o : Outcome (Unit {0})) → is_pass o ≡ true → is_failed o ≡ false
pass-not_failed (returned u) p = refl
pass-not_failed (failed msg) p = absurd (ground arith)
pass-not_failed (skipped msg) p = refl
pass-not_failed panicked p = refl

run-not_skipped : (o : Outcome (Unit {0})) → is_run o ≡ true → is_skipped o ≡ false
run-not_skipped (returned u) h = refl
run-not_skipped (failed msg) h = refl
run-not_skipped (skipped msg) h = absurd (ground arith)
run-not_skipped panicked h = absurd (ground arith)

pub run-not_panicked : {o : Outcome (Unit {0})} → is_run o ≡ true → o ≢ panicked
run-not_panicked h e = ground arith

module _ {S V : Type 0} (deep_equal : V → V → Bool) (f : Fixture S V) (d : Driver S) (s : S) where
  pub inspect-passes_iff :
      (is_pass (inspect_evaluate_redeem deep_equal f d s).0 ≡ true) ↔ Accepts deep_equal f d s
  inspect-passes_iff = (
    λ p. (inspect_evaluate_redeem-returns_iff deep_equal f d s).0 (
        passes-returned (inspect_evaluate_redeem deep_equal f d) s
          (run-not_skipped _ (inspect_evaluate_redeem-Runs deep_equal f d s)) p),
    λ h. let (t, e) = (inspect_evaluate_redeem-returns_iff deep_equal f d s).1 h in ground arith,
  )

  pub plain-passes_iff :
      (json : Json)
      → (is_pass (redeem_without_evaluate json deep_equal f d s).0 ≡ true)
        ↔ ((r : RedeemResult) × Redeems deep_equal f d s r)
  unfolding redeem_without_evaluate
  plain-passes_iff json = (
    λ p.
        let (t, e) =
          passes-returned (redeem_without_evaluate json deep_equal f d) s
            (run-not_skipped _ (redeem_without_evaluate-Runs deep_equal f d json s)) p in
        let (r, u, redeeming, _) =
          >>=-eq-returned (redeem deep_equal f d) (λ r. pure tt) s t tt e in
        (r, ((redeem_lem deep_equal f d s u r).0 redeeming).0),
    λ (r, h).
        let u = settled deep_equal f d f.assert_redeemed r (after_redeem deep_equal f d s) in
        ground (
          arith,
          >>=-of-returned (redeem deep_equal f d) (λ r. pure tt) s u r
              ((redeem_lem deep_equal f d s u r).1 (h, refl)),
        ),
  )

  pub reverse-passes_iff :
      (is_pass (redeem_reverse deep_equal f d s).0 ≡ true)
      ↔ (declares_reverse d.redescribed ≡ true → Restores deep_equal f d s)
  unfolding redeem_reverse
  reverse-passes_iff = elim (Bool-cases (declares_reverse d.redescribed)) [
    | inr plain ↦ (λ p declared. absurd (ground arith), λ h. ground arith)
    | inl declared ↦ (
      λ p _. (redeem_reverse-returns_iff deep_equal f d s declared).0 (
          passes-returned (redeem_reverse deep_equal f d) s
            (rw declared (reverses-not_skipped deep_equal f d s)) p),
      λ h.
          let (t, e) = (redeem_reverse-returns_iff deep_equal f d s declared).1 (h declared) in
          ap (λ o. is_pass o.0) e,
    )
  ]

  pub reverse-no_panic :
      (json : Json)
      → Ready json f d
      → d.redescribed ≡ d.descriptor
      → (redeem_reverse deep_equal f d s).0 ≢ panicked
  unfolding redeem_reverse
  reverse-no_panic json ready constant h = elim (Bool-cases (declares_reverse d.descriptor)) [
    | inr plain ↦ ground arith
    | inl declared ↦ ground (arith, reverses-Runs deep_equal f d json ready declared s)
  ]
