-- ===== src/Core/Correlation/Pointers.antt =====
-- correlation.go over a memory of records: a result refers to its redemption or reversal by a pointer,
-- which the driver that returned it may keep. Correlate copies the record before it writes.
use go_benefit.Prelude.{
  ℕ, ◌<◌, ◌≡◌, ◌∙◌, ap, inl, inr, not, ◌&&◌, Option, none, some, is_nil, arith, ◌==◌, nat_eq,
  Option-cases,
}
use mathlib.Core.Option
use go_benefit.Text.{text_eq}
use go_benefit.Memory.{Memory, alloc, store}
use go_benefit.Errors.{Result, ok, err, ◌>>◌, fail_if, errorf, sentinel, err_id_mismatch}
use go_benefit.Core.Status.{ResultStatus}
use go_benefit.Core.Info.{
  RedeemRequest, ReverseRequest, validate_redeem_request, validate_reverse_request,
}
use go_benefit.Core.Results.{
  RedeemFailure, Redemption, RedeemResult, ReversalFailure, Reversal, ReverseResult,
  validate_redeem_result, validate_reverse_result,
}
use go_benefit.Core.Correlation.{check_caller_id, correlate_redeem, correlate_reverse}

-- A nil pointer is `none`.
pub record RedeemResultRef : Type 0 where
  pub status : ResultStatus
  pub failure : Option RedeemFailure
  pub redemption : Option ℕ

-- The result as it reads now.
abbrev pub view_redeem : Memory Redemption → RedeemResultRef → RedeemResult
view_redeem m r = record {
  status = r.status;
  failure = r.failure;
  redemption = Option.map m.cell r.redemption;
}

-- `redemption := *r.Redemption`, the write, and `r.Redemption = &redemption`.
abbrev pub refer_redemption :
    RedeemRequest → ℕ → RedeemResultRef → Memory Redemption → RedeemResultRef × Memory Redemption
refer_redemption req p r m =
    let (q, copied) = alloc (m.cell p) m in
    (
      record r { redemption = some q },
      store q (record (copied.cell q) { redemption_id = req.redemption_id }) copied,
    )

unfoldable pub correlate_redeem_ref :
    RedeemRequest
    → RedeemResultRef
    → Memory Redemption
    → Result (RedeemResultRef × Memory Redemption)
unfolding check_caller_id
correlate_redeem_ref req r m = do
  validate_redeem_request req
  validate_redeem_result (view_redeem m r)
  elim r.redemption [
    | none ↦ ok (r, m)
    | some p ↦ do
      check_caller_id req.redemption_id (m.cell p).redemption_id
      ok (refer_redemption req p r m)
  ]

-- What a call returns, read in the memory that it leaves.
abbrev pub read_redeem : Result (RedeemResultRef × Memory Redemption) → Result RedeemResult
read_redeem (ok (after, m)) = ok (view_redeem m after)
read_redeem (err e) = err e

-- A pointer is nil or allocated.
abbrev pub IsAllocated : {A : Type 0} → Memory A → Option ℕ → Type 0
IsAllocated m none = Unit
IsAllocated m (some p) = p < m.next

-- The holder of a result writes its record.
abbrev pub overwrite : {A : Type 0} → Option ℕ → A → Memory A → Memory A
overwrite none a m = m
overwrite (some p) a m = store p a m

-- Over the memory Correlate returns what it returns on values.
pub read_redeem-correlate :
    (req : RedeemRequest) (r : RedeemResultRef) (m : Memory Redemption)
    → read_redeem (correlate_redeem_ref req r m) ≡ correlate_redeem req (view_redeem m r)
unfolding correlate_redeem_ref correlate_redeem
read_redeem-correlate req r m = ground arith

-- Neither the call nor a later write to the record that it returns changes the given result.
original_kept :
    (req : RedeemRequest) (r : RedeemResultRef) (m : Memory Redemption) (after : RedeemResultRef)
    (left : Memory Redemption)
    → IsAllocated m r.redemption
    → correlate_redeem_ref req r m ≡ ok (after, left)
    → (s : Redemption) → view_redeem (overwrite after.redemption s left) r ≡ view_redeem m r
unfolding correlate_redeem_ref
original_kept req r m after left inside h s = elim (Option-cases r.redemption) [
  | inl missing ↦ ground arith
  | inr (p, present) ↦
      let below : p < m.next = ground arith in
      let given : refer_redemption req p r m ≡ (after, left) = ground arith in
      let to : after.redemption ≡ some m.next = cc (given) in
      let memory : (refer_redemption req p r m).1 ≡ left = cc (given) in ground arith
]

-- After Correlate has succeeded on a result with no record or an allocated one, and after any write to
-- the record that it returned, Correlate on the same result, with the same request or another one,
-- returns what it does on the result as it was at first: neither the call nor the write changed it.
pub correlate_redeem_ref-again :
    (req again : RedeemRequest) (r : RedeemResultRef) (m : Memory Redemption)
    (after : RedeemResultRef) (left : Memory Redemption)
    → IsAllocated m r.redemption
    → correlate_redeem_ref req r m ≡ ok (after, left)
    → (s : Redemption)
    → read_redeem (correlate_redeem_ref again r (overwrite after.redemption s left))
      ≡ correlate_redeem again (view_redeem m r)
correlate_redeem_ref-again req again r m after left inside h s =
    read_redeem-correlate again r (overwrite after.redemption s left)
    ∙ ap (correlate_redeem again) (original_kept req r m after left inside h s)

pub record ReverseResultRef : Type 0 where
  pub status : ResultStatus
  pub failure : Option ReversalFailure
  pub reversal : Option ℕ

abbrev pub view_reverse : Memory Reversal → ReverseResultRef → ReverseResult
view_reverse m r = record {
  status = r.status;
  failure = r.failure;
  reversal = Option.map m.cell r.reversal;
}

-- `reversal := *r.Reversal`, the writes, and `r.Reversal = &reversal`.
abbrev pub refer_reversal :
    ReverseRequest → ℕ → ReverseResultRef → Memory Reversal → ReverseResultRef × Memory Reversal
refer_reversal req p r m =
    let (q, copied) = alloc (m.cell p) m in
    (
      record r { reversal = some q },
      store q
          (record (copied.cell q) {
            redemption_id = req.redemption_id;
            reversal_id = req.reversal_id;
          })
          copied,
    )

unfoldable pub correlate_reverse_ref :
    ReverseRequest
    → ReverseResultRef
    → Memory Reversal
    → Result (ReverseResultRef × Memory Reversal)
unfolding check_caller_id
correlate_reverse_ref req r m = do
  validate_reverse_request req
  validate_reverse_result (view_reverse m r)
  elim r.reversal [
    | none ↦ ok (r, m)
    | some p ↦ do
      check_caller_id req.redemption_id (m.cell p).redemption_id
      check_caller_id req.reversal_id (m.cell p).reversal_id
      fail_if
          (not (is_nil req.provider_redemption_id)
            && not (is_nil (m.cell p).provider_redemption_id)
            && not (req.provider_redemption_id == (m.cell p).provider_redemption_id))
          (errorf "%w: ProviderRedemptionId" (sentinel err_id_mismatch))
      ok (refer_reversal req p r m)
  ]

abbrev pub read_reverse : Result (ReverseResultRef × Memory Reversal) → Result ReverseResult
read_reverse (ok (after, m)) = ok (view_reverse m after)
read_reverse (err e) = err e

pub read_reverse-correlate :
    (req : ReverseRequest) (r : ReverseResultRef) (m : Memory Reversal)
    → read_reverse (correlate_reverse_ref req r m) ≡ correlate_reverse req (view_reverse m r)
unfolding correlate_reverse_ref correlate_reverse
read_reverse-correlate req r m = ground arith

reversal_kept :
    (req : ReverseRequest) (r : ReverseResultRef) (m : Memory Reversal) (after : ReverseResultRef)
    (left : Memory Reversal)
    → IsAllocated m r.reversal
    → correlate_reverse_ref req r m ≡ ok (after, left)
    → (s : Reversal) → view_reverse (overwrite after.reversal s left) r ≡ view_reverse m r
unfolding correlate_reverse_ref
reversal_kept req r m after left inside h s = elim (Option-cases r.reversal) [
  | inl missing ↦ ground arith
  | inr (p, present) ↦
      let below : p < m.next = ground arith in
      let given : refer_reversal req p r m ≡ (after, left) = ground arith in
      let to : after.reversal ≡ some m.next = cc (given) in
      let memory : (refer_reversal req p r m).1 ≡ left = cc (given) in ground arith
]

-- The same holds of a reverse result and its reversal.
pub correlate_reverse_ref-again :
    (req again : ReverseRequest) (r : ReverseResultRef) (m : Memory Reversal)
    (after : ReverseResultRef) (left : Memory Reversal)
    → IsAllocated m r.reversal
    → correlate_reverse_ref req r m ≡ ok (after, left)
    → (s : Reversal)
    → read_reverse (correlate_reverse_ref again r (overwrite after.reversal s left))
      ≡ correlate_reverse again (view_reverse m r)
correlate_reverse_ref-again req again r m after left inside h s =
    read_reverse-correlate again r (overwrite after.reversal s left)
    ∙ ap (correlate_reverse again) (reversal_kept req r m after left inside h s)
