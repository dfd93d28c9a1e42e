-- ===== src/Core/Correlation/Laws.antt =====
-- What a correlated result is, and that correlating it again changes nothing.
use go_benefit.Prelude.{
  ◌≡◌, ◌↔◌, ◌⊎◌, inl, inr, false, not, ◌&&◌, some, [], ◌∷◌, arith, is_nil, ◌==◌, eq_iff,
  Option-cases,
}
use mathlib.Core.Option
use go_benefit.Text.{Text, text_eq}
use go_benefit.Errors.{ok}
use go_benefit.Core.Info.{
  RedeemRequest, ReverseRequest, validate_redeem_request, validate_reverse_request,
}
use go_benefit.Core.Results.{
  Redemption, RedeemResult, Reversal, ReverseResult, validate_redeem_result,
  validate_reverse_result, validate_redeem_payload, validate_reverse_payload,
}
use go_benefit.Core.Correlation.{
  check_caller_id, correlate_redeem, correlate_reversal, correlate_reverse,
}

-- A returned identifier that is missing or the requested one.
abbrev pub Answers : Text → Text → Type 0
Answers requested returned = (returned ≡ []) ⊎ (returned ≡ requested)

abbrev pub fill_redemption : RedeemRequest → Redemption → Redemption
fill_redemption req s = record s { redemption_id = req.redemption_id }

abbrev pub fill_reversal : ReverseRequest → Reversal → Reversal
fill_reversal req s = record s { redemption_id = req.redemption_id; reversal_id = req.reversal_id }

check_caller_id_iff :
    (requested returned : Text)
    → (check_caller_id requested returned ≡ ok tt) ↔ Answers requested returned
unfolding check_caller_id
check_caller_id_iff requested [] = ground arith
check_caller_id_iff requested (c ∷ t) = ground (arith, eq_iff (c ∷ t) requested)

-- What correlation of a redeem result needs, and what it returns.
pub record Correlates (req : RedeemRequest) (r after : RedeemResult) : Type 0 where
  pub request : validate_redeem_request req ≡ ok tt
  pub result : validate_redeem_result r ≡ ok tt
  pub answers : (s : Redemption) → r.redemption ≡ some s → Answers req.redemption_id s.redemption_id
  pub filled : after ≡ record r { redemption = Option.map (fill_redemption req) r.redemption }

-- Correlate succeeds exactly on a valid request and result whose redemption, if there is one, has no
-- caller identifier or the requested one. It changes that identifier, to the requested one, alone.
pub correlate_redeem-eq-ok_iff :
    (req : RedeemRequest) (r after : RedeemResult)
    → (correlate_redeem req r ≡ ok after) ↔ Correlates req r after
unfolding correlate_redeem
correlate_redeem-eq-ok_iff req r after = elim (Option-cases r.redemption) [
  | inl missing ↦ (
    λ h. record {
      request = ground arith;
      result = ground arith;
      answers = λ s e. ground arith;
      filled = ground arith;
    },
    λ h. ground (arith, h.filled),
  )
  | inr (s, present) ↦ (
    λ h. record {
      request = ground arith;
      result = ground arith;
      answers = λ t e. ground (arith, check_caller_id_iff req.redemption_id t.redemption_id);
      filled = ground arith;
    },
    λ h. ground (
      arith,
      h.filled,
      h.answers s present,
      check_caller_id_iff req.redemption_id s.redemption_id,
    ),
  )
]

filled_redeem-valid :
    (req : RedeemRequest) (r : RedeemResult)
    → validate_redeem_result r ≡ ok tt
    → validate_redeem_result
        (record r { redemption = Option.map (fill_redemption req) r.redemption })
      ≡ ok tt
unfolding validate_redeem_result validate_redeem_payload
filled_redeem-valid req r h = ground arith

-- A correlated redeem result correlates with the same request to itself.
pub correlate_redeem_idempotent :
    (req : RedeemRequest) (r after : RedeemResult)
    → correlate_redeem req r ≡ ok after
    → correlate_redeem req after ≡ ok after
correlate_redeem_idempotent req r after h =
    let k = (correlate_redeem-eq-ok_iff req r after).0 h in
    rw k.filled (
      (correlate_redeem-eq-ok_iff req _ _).1 (record {
        request = k.request;
        result = filled_redeem-valid req r k.result;
        answers = λ s e. inr (ground arith);
        filled = ground arith;
      }))

-- What correlation of a reverse result needs of the reversal, if there is one.
pub record AnswersReverse (req : ReverseRequest) (s : Reversal) : Type 0 where
  pub redemption : Answers req.redemption_id s.redemption_id
  pub reversal : Answers req.reversal_id s.reversal_id
  pub provider :
      (req.provider_redemption_id ≡ [])
      ⊎ Answers req.provider_redemption_id s.provider_redemption_id

pub record CorrelatesReverse (req : ReverseRequest) (r after : ReverseResult) : Type 0 where
  pub request : validate_reverse_request req ≡ ok tt
  pub result : validate_reverse_result r ≡ ok tt
  pub answers : (s : Reversal) → r.reversal ≡ some s → AnswersReverse req s
  pub filled : after ≡ record r { reversal = Option.map (fill_reversal req) r.reversal }

provider_iff :
    (a b : Text)
    → ((not (is_nil a) && not (is_nil b) && not (a == b)) ≡ false) ↔ ((a ≡ []) ⊎ Answers a b)
provider_iff [] b = ground arith
provider_iff (x ∷ a) [] = ground arith
provider_iff (x ∷ a) (y ∷ b) = ground (arith, eq_iff (x ∷ a) (y ∷ b))

correlate_reversal_iff :
    (req : ReverseRequest) (s after : Reversal)
    → (correlate_reversal req s ≡ ok after) ↔ (AnswersReverse req s × (after ≡ fill_reversal req s))
unfolding correlate_reversal
correlate_reversal_iff req s after = ground (
  arith,
  check_caller_id_iff req.redemption_id s.redemption_id,
  check_caller_id_iff req.reversal_id s.reversal_id,
  provider_iff req.provider_redemption_id s.provider_redemption_id,
)

correlated_reversal :
    (req : ReverseRequest) (r : ReverseResult) (s : Reversal) (after : ReverseResult)
    → r.reversal ≡ some s
    → correlate_reverse req r ≡ ok after
    → correlate_reversal req s ≡ ok (fill_reversal req s)
unfolding correlate_reverse
correlated_reversal req r s after present h = ground arith

-- Correlate succeeds exactly on a valid request and result whose reversal, if there is one, has no
-- caller identifiers or the requested ones, and no provider redemption identifier that differs from
-- one in the request. It changes the two caller identifiers, to the requested ones, alone.
pub correlate_reverse-eq-ok_iff :
    (req : ReverseRequest) (r after : ReverseResult)
    → (correlate_reverse req r ≡ ok after) ↔ CorrelatesReverse req r after
unfolding correlate_reverse
correlate_reverse-eq-ok_iff req r after = elim (Option-cases r.reversal) [
  | inl missing ↦ (
    λ h. record {
      request = ground arith;
      result = ground arith;
      answers = λ s e. absurd (cc);
      filled = ground arith;
    },
    λ h. ground (arith, h.filled),
  )
  | inr (s, present) ↦ (
    λ h. record {
      request = ground arith;
      result = ground arith;
      answers = λ t e.
          ((correlate_reversal_iff req t (fill_reversal req t)).0
            (correlated_reversal req r t after e h)).0;
      filled = ground arith;
    },
    λ h.
        ground (
          arith,
          h.filled,
          correlate_reversal_iff req s (fill_reversal req s),
          h.answers s present,
        ),
  )
]

filled_reverse-valid :
    (req : ReverseRequest) (r : ReverseResult)
    → validate_reverse_result r ≡ ok tt
    → validate_reverse_result (record r { reversal = Option.map (fill_reversal req) r.reversal })
      ≡ ok tt
unfolding validate_reverse_result validate_reverse_payload
filled_reverse-valid req r h = ground arith

-- A correlated reverse result correlates with the same request to itself.
pub correlate_reverse_idempotent :
    (req : ReverseRequest) (r after : ReverseResult)
    → correlate_reverse req r ≡ ok after
    → correlate_reverse req after ≡ ok after
correlate_reverse_idempotent req r after h =
    let k = (correlate_reverse-eq-ok_iff req r after).0 h in
    rw k.filled (
      (correlate_reverse-eq-ok_iff req _ _).1 (record {
        request = k.request;
        result = filled_reverse-valid req r k.result;
        answers = λ s e. elim (Option-cases r.reversal) [
          | inl missing ↦ absurd (ground arith)
          | inr (t, present) ↦ record {
            redemption = inr (ground arith);
            reversal = inr (ground arith);
            provider = ground (arith, (k.answers t present).provider);
          }
        ];
        filled = ground arith;
      }))
