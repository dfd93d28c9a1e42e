-- ===== src/Drivertest/Run/Skips.antt =====
-- The part of the third subtest that follows its skip does not skip.
use go_benefit.Prelude.{◌≡◌, refl, inl, inr, Bool, true, false, arith, Option-cases}
use go_benefit.Text.{text_eq}
use go_benefit.Errors.{Result}
use go_benefit.Core.Status.{result_status_eq}
use go_benefit.Core.Info.{ReverseRequest}
use go_benefit.Core.Results.{RedeemResult, ReverseResult}
use go_benefit.Core.Driver.{Driver}
use go_benefit.Drivertest.Test.{Outcome, returned, failed, skipped, panicked, Test, ◌>>=◌}
use go_benefit.Drivertest.Run.{
  Fixture, unchanged, still, redeem, reverse_of, reverse_with, reverse_redeemed,
}
use go_benefit.Drivertest.Run.Safety.{is_run, redeem-Runs}

-- A test that does not skip.
abbrev pub is_skipped : {A : Type 0} → Outcome A → Bool
is_skipped (skipped msg) = true
is_skipped _ = false

outcome-not_skipped :
    {S A B : Type 0} (o : Outcome A) (u : S) (g : A → Test S B)
    → is_run o ≡ true
    → ((a : A) → is_skipped (g a u).0 ≡ false)
    → is_skipped (◌>>=◌ (λ s. (o, u)) g u).0 ≡ false
outcome-not_skipped (returned a) u g h k = k a
outcome-not_skipped (failed msg) u g h k = refl
outcome-not_skipped (skipped msg) u g h k = absurd (ground arith)
outcome-not_skipped panicked u g h k = absurd (ground arith)

module _ {S V : Type 0} (deep_equal : V → V → Bool) (f : Fixture S V) (d : Driver S) where
  reverse_with-not_skipped :
      (req : ReverseRequest) (reverser : ReverseRequest → S → Result ReverseResult × S) (s : S)
      → is_skipped (reverse_with deep_equal f req reverser s).0 ≡ false
  unfolding reverse_with unchanged still
  reverse_with-not_skipped req reverser s = elim (Option-cases f.input_snapshot) [
    | inl plain ↦ elim (Option-cases f.assert_reversed) [
      | inl unasked ↦ ground arith
      | inr (callback, asked) ↦ ground arith
    ]
    | inr (snapshot, taken) ↦ elim (Option-cases f.assert_reversed) [
      | inl unasked ↦ ground arith
      | inr (callback, asked) ↦ ground arith
    ]
  ]

  reverse_redeemed-not_skipped :
      (r : RedeemResult) (s : S) → is_skipped (reverse_redeemed deep_equal f d r s).0 ≡ false
  unfolding reverse_redeemed
  reverse_redeemed-not_skipped r s = elim (Option-cases r.redemption) [
    | inl lost ↦ ground arith
    | inr (c, present) ↦ elim (Option-cases d.reverse) [
      | inl missing ↦ ground arith
      | inr (reverser, implemented) ↦
          rw (present, implemented) (reverse_with-not_skipped (reverse_of f c) reverser s)
    ]
  ]

  pub reverses-not_skipped :
      (s : S) → is_skipped ((redeem deep_equal f d >>= reverse_redeemed deep_equal f d) s).0 ≡ false
  reverses-not_skipped s =
      outcome-not_skipped (redeem deep_equal f d s).0 (redeem deep_equal f d s).1
        (reverse_redeemed deep_equal f d) (redeem-Runs deep_equal f d s)
        (λ r. reverse_redeemed-not_skipped r (redeem deep_equal f d s).1)
