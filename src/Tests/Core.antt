-- ===== src/Tests/Core.antt =====
-- The value models and their validation on concrete values.
use go_benefit.Prelude.{
  ◌≡◌, refl, ◌↔◌, true, false, [], ◌∷◌, arith, Option, some, none, List, All, IsDistinct, map, has,
  is_some,
}
use go_benefit.Int64.{pos}
use go_benefit.Text.{Text, bytes}
use go_benefit.Time.{Time}
use go_benefit.Errors.{ok, err, errorf, sentinel, validation_error, err_id_mismatch}
use go_benefit.Core.Identifier.{is_namespaced}
use go_benefit.Core.Identifier.Grammar.{IsName, is_namespaced_iff}
use go_benefit.Core.Diagnostic.{no_diagnostic}
use go_benefit.Core.Status.{Status, ResultStatus}
use go_benefit.Core.Outcome.{BenefitOutcome, ReversalOutcome, BenefitRestoration}
use go_benefit.Core.Constraint.{bare_report, ConstraintReportStatus}
use go_benefit.Core.Operation.{
  Operation, OperationMode, OperationCapabilities, OperationPolicies, validate_capabilities,
  operation_eq, mode_eq,
}
use go_benefit.Core.Operation.Valid.{IsCapability, validate_capabilities_iff}
use go_benefit.Core.Info.{
  DriverRequest, RedeemRequest, ReverseRequest, Usage, BenefitInfo, validate_benefit_info,
}
use go_benefit.Core.Results.{
  Redemption, RedeemResult, RedeemFailure, Reversal, ReverseResult, EvaluationResult,
  EvaluationFailure, EvaluationFailureCode, validate_evaluation_result, validate_redeem_result,
  validate_redemption,
}
use go_benefit.Core.Correlation.{correlate_redeem, correlate_reverse}
use go_benefit.Core.Correlation.Laws.{
  Correlates, CorrelatesReverse, correlate_redeem-eq-ok_iff, correlate_reverse-eq-ok_iff,
}

abbrev pub noon : Time
noon = record { instant = pos 1000; location = bytes "UTC" }

abbrev pub coupon_request : DriverRequest
coupon_request = record { reference = bytes "COUPON"; input = none }

abbrev pub redeem_request : RedeemRequest
redeem_request = record {
  request = coupon_request;
  redemption_id = bytes "r1";
  evaluation_token = [];
}

abbrev pub redemption_under : Text → Redemption
redemption_under id = record {
  redemption_id = id;
  provider_redemption_id = bytes "p1";
  redeemed_at = noon;
  outcome = record { discount = none };
  provider_data = [];
}

abbrev pub redeemed_under : Text → RedeemResult
redeemed_under id = record {
  status = ResultStatus.success;
  failure = none;
  redemption = some (redemption_under id);
}

abbrev pub reverse_request : ReverseRequest
reverse_request = record {
  request = coupon_request;
  reversal_id = bytes "v1";
  redemption_id = bytes "r1";
  provider_redemption_id = bytes "p1";
  mode = OperationMode.full;
  reason = [];
}

abbrev pub reversed_under : Text → ReverseResult
reversed_under id = record {
  status = ResultStatus.success;
  failure = none;
  reversal = some (record {
    redemption_id = bytes "r1";
    provider_redemption_id = [];
    reversal_id = id;
    provider_reversal_id = [];
    reversed_at = noon;
    outcome = record { reversed = record { discount = none }; restored = record { money = none } };
    provider_data = [];
  });
}

abbrev pub no_benefit : EvaluationResult
no_benefit = record {
  eligible = false;
  constraints = bare_report ConstraintReportStatus.unevaluated;
  failure =
      some (record { code = EvaluationFailureCode.benefit_not_found; diagnostic = no_diagnostic });
  outcome = record { discount = none };
  expires_at = noon;
  evaluation_token = [];
}

abbrev pub reverse_capability : OperationCapabilities
reverse_capability =
    record {
      operation = Operation.reverse;
      modes = OperationMode.full ∷ OperationMode.partial ∷ [];
    }
    ∷ []

abbrev pub no_partial : OperationPolicies
no_partial =
    record {
      operation = Operation.reverse;
      match_modes = OperationMode.partial ∷ [];
      constraints = [];
      remark = [];
      disabled = true;
    }
    ∷ []

abbrev pub unknown_driver : BenefitInfo
unknown_driver = record {
  name = bytes "ten off";
  status = Status.active;
  driver_type = bytes "coupon";
  usage = record { redeemed_count = pos 0; remaining_count = pos 1; unlimited = false };
  validity = record { starts_at = noon; expires_at = noon };
  constraints = [];
  operation_policies = [];
  notices = [];
  provider_benefit_id = [];
  provider_data = [];
}

missing_id_run :
    correlate_redeem redeem_request (redeemed_under []) ≡ ok (redeemed_under (bytes "r1"))
unfolding correlate_redeem go_benefit.Core.Info.validate_redeem_request validate_redeem_result
    go_benefit.Core.Outcome.validate_outcome
missing_id_run = refl

missing_reversal_id_run :
    correlate_reverse reverse_request (reversed_under []) ≡ ok (reversed_under (bytes "v1"))
unfolding correlate_reverse go_benefit.Core.Info.validate_reverse_request
    go_benefit.Core.Results.validate_reverse_result
    go_benefit.Core.Outcome.validate_reversal_outcome go_benefit.Core.Outcome.validate_outcome
    go_benefit.Core.Outcome.validate_restoration go_benefit.Prelude.list_beq
missing_reversal_id_run = refl

other_id_run :
    correlate_redeem redeem_request (redeemed_under (bytes "r2"))
    ≡ err (errorf "%w: %s" (sentinel err_id_mismatch))
unfolding correlate_redeem go_benefit.Core.Info.validate_redeem_request validate_redeem_result
    go_benefit.Core.Outcome.validate_outcome go_benefit.Prelude.list_beq
other_id_run = refl

plain_name_run : is_namespaced (bytes "coupon") ≡ false
unfolding is_namespaced
plain_name_run = refl

unknown_driver_run : validate_benefit_info unknown_driver ≡ err (validation_error "invalid %s %q")
unfolding validate_benefit_info go_benefit.Core.Info.validate_driver_type
    go_benefit.Core.Identifier.validate_namespaced_value
unknown_driver_run = refl

is_namespaced_iff_example :
    (is_namespaced (bytes "benefit.weekday") ≡ true) ↔ IsName (bytes "benefit.weekday")
is_namespaced_iff_example = is_namespaced_iff (bytes "benefit.weekday")

correlate_redeem-eq-ok_iff_example :
    (correlate_redeem redeem_request (redeemed_under []) ≡ ok (redeemed_under (bytes "r1")))
    ↔ Correlates redeem_request (redeemed_under []) (redeemed_under (bytes "r1"))
correlate_redeem-eq-ok_iff_example =
    correlate_redeem-eq-ok_iff redeem_request (redeemed_under []) (redeemed_under (bytes "r1"))

correlate_reverse-eq-ok_iff_example :
    (correlate_reverse reverse_request (reversed_under []) ≡ ok (reversed_under (bytes "v1")))
    ↔ CorrelatesReverse reverse_request (reversed_under []) (reversed_under (bytes "v1"))
correlate_reverse-eq-ok_iff_example =
    correlate_reverse-eq-ok_iff reverse_request (reversed_under []) (reversed_under (bytes "v1"))

validate_capabilities_iff_example :
    (validate_capabilities reverse_capability ≡ ok tt)
    ↔ (All IsCapability reverse_capability × IsDistinct (map (λ c. c.operation) reverse_capability))
validate_capabilities_iff_example = validate_capabilities_iff reverse_capability
