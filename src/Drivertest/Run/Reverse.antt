-- ===== src/Drivertest/Run/Reverse.antt =====
-- Fresh fixtures, and the subtest that redeems and reverses.
use go_benefit.Prelude.{
  ◌≡◌, ◌≢◌, refl, sym, ◌∙◌, ◌↔◌, inl, inr, Bool, true, Option, some, none, arith, is_some,
  Option-cases, Bool-cases,
}
use mathlib.Core.Path.{subst}
use go_benefit.Text.{text_eq}
use go_benefit.Errors.{Result, ok}
use go_benefit.Errors.Laws.{Result-cases}
use go_benefit.Core.Config.{Json}
use go_benefit.Core.Status.{ResultStatus, result_status_eq}
use go_benefit.Core.Info.{RedeemRequest, ReverseRequest}
use go_benefit.Core.Money.{Money}
use go_benefit.Core.Results.{Redemption, RedeemResult, ReverseResult}
use go_benefit.Core.Results.Valid.{validate_redeem_result_iff}
use go_benefit.Core.Driver.{Driver, validate_descriptor}
use go_benefit.Drivertest.{Verdict, passed, check_redeem, check_reverse}
use go_benefit.Drivertest.Test.{returned, ◌>>=◌, >>=-eq-returned, >>=-of-returned}
use go_benefit.Drivertest.Run.{
  Fixture, declares_reverse, check_driver, fresh, unchanged, still, redeem, reverse_of,
  reverse_with, reverse_redeemed, redeem_reverse, plain_redeem,
}
use go_benefit.Drivertest.Run.Laws.{Same, Redeems, redeem_lem, settled, after_redeem}

module _ {S V : Type 0} (json : Json) (f : Fixture S V) (d : Driver S) where
  -- The checks of fresh pass for the driver.
  pub record Ready : Type 0 where
    pub driver : f.driver ≡ some d
    pub valid : validate_descriptor json d.descriptor ≡ ok tt
    pub reverser : declares_reverse d.descriptor ≡ true → is_some d.reverse ≡ true
    pub checks_redeemed : declares_reverse d.descriptor ≡ true → is_some f.assert_redeemed ≡ true
    pub checks_reversed : declares_reverse d.descriptor ≡ true → is_some f.assert_reversed ≡ true

  pub fresh_lem : (s t : S) → (fresh json f s ≡ (returned d, t)) ↔ (Ready × (t ≡ s))
  unfolding fresh check_driver
  fresh_lem s t = elim (Option-cases f.driver) [
    | inl missing ↦ ground arith
    | inr (e, present) ↦ elim (Bool-cases (declares_reverse d.descriptor)) [
      | inl declared ↦ ground arith
      | inr plain ↦ ground arith
    ]
  ]

-- A result that CheckRedeem passes as a success has a redemption.
pub success-redemption :
    (req : RedeemRequest) (r : RedeemResult) (original : Option Money)
    → check_redeem req r original ≡ passed
    → r.status ≡ ResultStatus.success
    → (c : Redemption) × (r.redemption ≡ some c)
unfolding check_redeem
success-redemption req r original h won = elim (Option-cases r.redemption) [
  | inr found ↦ found
  | inl missing ↦ absurd (ground (arith, validate_redeem_result_iff r))
]

module _ {S V : Type 0} (deep_equal : V → V → Bool) (f : Fixture S V) (d : Driver S) where
  module _ (req : ReverseRequest) (reverser : ReverseRequest → S → Result ReverseResult × S) where
    abbrev pub after_reverse : S → S
    after_reverse s = (reverser req s).1

    abbrev pub Confirmed :
        Option (ReverseRequest → ReverseResult → S → Verdict × S) → ReverseResult → S → Type 0
    Confirmed none r s = ⊥
    Confirmed (some callback) r s = (callback req r s).0 ≡ passed

    -- In state s the driver reverses the redemption, and the result is r.
    pub record Reverses (s : S) (r : ReverseResult) : Type 0 where
      pub answer : (reverser req s).0 ≡ ok r
      pub input_kept : Same deep_equal f d f.input_snapshot s (after_reverse s)
      pub checked : check_reverse req r ≡ passed
      pub success : r.status ≡ ResultStatus.success
      pub confirmed : Confirmed f.assert_reversed r (after_reverse s)

    pub reverse_with-from :
        (s t : S)
        → reverse_with deep_equal f req reverser s ≡ (returned tt, t)
        → (r : ReverseResult) × Reverses s r
    unfolding reverse_with unchanged still
    reverse_with-from s t h = elim (Result-cases (reverser req s).0) [
      | inl (e, failure) ↦ absurd (ground arith)
      | inr (r, answer) ↦ elim (Option-cases f.input_snapshot) [
        | inl plain ↦ elim (Option-cases f.assert_reversed) [
          | inl unasked ↦ absurd (ground arith)
          | inr (callback, asked) ↦ (r, ground arith)
        ]
        | inr (snapshot, taken) ↦ elim (Option-cases f.assert_reversed) [
          | inl unasked ↦ absurd (ground arith)
          | inr (callback, asked) ↦ (r, ground arith)
        ]
      ]
    ]

    pub reverse_with_of :
        (s : S) (r : ReverseResult)
        → Reverses s r
        → (t : S) × (reverse_with deep_equal f req reverser s ≡ (returned tt, t))
    unfolding reverse_with unchanged still
    reverse_with_of s r h = elim (Option-cases f.assert_reversed) [
      | inl unasked ↦ absurd (ground arith)
      | inr (callback, asked) ↦ elim (Option-cases f.input_snapshot) [
        | inl plain ↦ ((callback req r (after_reverse s)).1, ground arith)
        | inr (snapshot, taken) ↦ ((callback req r (after_reverse s)).1, ground arith)
      ]
    ]

  -- The driver redeems the benefit in state s, and reverses that redemption.
  pub record Restores (s : S) : Type 0 where
    pub r : RedeemResult
    pub redeemed : Redeems deep_equal f d s r
    pub redemption : Redemption
    pub present : r.redemption ≡ some redemption
    pub reverser : ReverseRequest → S → Result ReverseResult × S
    pub implemented : d.reverse ≡ some reverser
    pub reversal : ReverseResult
    pub reversed :
        Reverses
          (reverse_of f redemption)
          reverser
          (settled deep_equal f d f.assert_redeemed r (after_redeem deep_equal f d s))
          reversal

  reverse_redeemed_lem :
      (r : RedeemResult) (c : Redemption) (reverser : ReverseRequest → S → Result ReverseResult × S)
      (s : S)
      → r.redemption ≡ some c
      → d.reverse ≡ some reverser
      → reverse_redeemed deep_equal f d r s ≡ reverse_with deep_equal f (reverse_of f c) reverser s
  unfolding reverse_redeemed
  reverse_redeemed_lem r c reverser s present implemented = rw (present, implemented) refl

  pub redeem_reverse_lem :
      (s : S)
      → declares_reverse d.redescribed ≡ true
      → redeem_reverse deep_equal f d s
        ≡ (redeem deep_equal f d >>= reverse_redeemed deep_equal f d) s
  unfolding redeem_reverse
  redeem_reverse_lem s declared = rw declared refl

  no_reverser :
      (r : RedeemResult) (c : Redemption) (s t : S)
      → d.reverse ≡ none
      → r.redemption ≡ some c
      → reverse_redeemed deep_equal f d r s ≢ (returned tt, t)
  unfolding reverse_redeemed
  no_reverser r c s t missing present h = ground arith

  reverses-from :
      (s t : S)
      → (redeem deep_equal f d >>= reverse_redeemed deep_equal f d) s ≡ (returned tt, t)
      → Restores s
  reverses-from s t h =
      let (r, u, redeeming, k) =
        >>=-eq-returned (redeem deep_equal f d) (reverse_redeemed deep_equal f d) s t tt h in
      let (redeemed, e) = (redeem_lem deep_equal f d s u r).0 redeeming in
      let (c, present) =
        success-redemption (plain_redeem f) r f.original redeemed.checked redeemed.success in
      elim (Option-cases d.reverse) [
        | inl missing ↦ absurd (no_reverser r c u t missing present k)
        | inr (reverser, implemented) ↦
            let (reversal, reversed) =
              reverse_with-from (reverse_of f c) reverser u t
                (sym (reverse_redeemed_lem r c reverser u present implemented) ∙ k) in
            record {
              r = r;
              redeemed = redeemed;
              redemption = c;
              present = present;
              reverser = reverser;
              implemented = implemented;
              reversal = reversal;
              reversed = subst (λ u. Reverses (reverse_of f c) reverser u reversal) e reversed;
            }
      ]

  -- The subtest of a driver that declares Reverse when it is asked again returns exactly where the driver redeems the benefit
  -- with success and then reverses that redemption with success: each answer passes its check, and the
  -- assertions of the fixture on the state of the provider pass.
  pub redeem_reverse-returns_iff :
      (s : S)
      → declares_reverse d.redescribed ≡ true
      → ((t : S) × (redeem_reverse deep_equal f d s ≡ (returned tt, t))) ↔ Restores s
  redeem_reverse-returns_iff s declared = (
    λ (t, h). reverses-from s t (sym (redeem_reverse_lem s declared) ∙ h),
    λ h.
        let u = settled deep_equal f d f.assert_redeemed h.r (after_redeem deep_equal f d s) in
        let (t, e) =
          reverse_with_of (reverse_of f h.redemption) h.reverser u h.reversal h.reversed in
        (
          t,
          redeem_reverse_lem s declared
              ∙ >>=-of-returned (redeem deep_equal f d) (reverse_redeemed deep_equal f d) s u h.r
                  ((redeem_lem deep_equal f d s u h.r).1 (h.redeemed, refl))
              ∙ reverse_redeemed_lem h.r h.redemption h.reverser u h.present h.implemented
              ∙ e,
        ),
  )
