-- ===== src/Tests/Conformance.antt =====
-- A driver that passes the conformance tests of drivertest, with its fixture. The state of its provider
-- says whether the coupon is used.
use go_benefit.Prelude.{
  ℕ, ◌≡◌, ◌≢◌, refl, ◌↔◌, Bool, true, false, not, none, some, [], ◌∷◌, all, All, length,
  if◌then◌else◌, List, arith,
}
use go_benefit.Int64.{pos}
use go_benefit.Text.{Text, bytes}
use go_benefit.Errors.{ok, err, foreign}
use go_benefit.Core.Operation.{OperationMode}
use go_benefit.Core.Status.{ResultStatus}
use go_benefit.Core.Info.{BenefitInfo, RedeemRequest, ReverseRequest}
use go_benefit.Core.Constraint.{bare_report, ConstraintReportStatus}
use go_benefit.Core.Results.{EvaluationResult, RedeemResult, ReverseResult, Redemption, Reversal}
use go_benefit.Core.Driver.{Driver, DriverDescriptor}
use go_benefit.Drivertest.{Verdict, passed, fatal}
use go_benefit.Drivertest.Test.{panicked, returned, failed}
use go_benefit.Drivertest.Run.{
  Fixture, Prepared, run, is_pass, subtest, inspect_evaluate_redeem, redeem_without_evaluate,
  redeem_reverse,
}
use go_benefit.Drivertest.Run.Passes.{Conforms, run-passes_iff, run-never_panics}
use go_benefit.Tests.Core.{
  noon, unknown_driver, redeem_request, reverse_request, coupon_request, redeemed_under,
  reverse_capability,
}
use go_benefit.Tests.Driver.{json, descriptor}

abbrev same : Bool → Bool → Bool
same a b = if a then b else not b

abbrev reversible : DriverDescriptor
reversible = record descriptor { operations = reverse_capability }

abbrev info : BenefitInfo
info = record unknown_driver {
  driver_type = bytes "shop.coupon";
  validity = record { starts_at = noon; expires_at = record { instant = pos 2000; location = [] } };
}

abbrev eligible : EvaluationResult
eligible = record {
  eligible = true;
  constraints = bare_report ConstraintReportStatus.satisfied;
  failure = none;
  outcome = record { discount = none };
  expires_at = noon;
  evaluation_token = [];
}

abbrev reversal_of : ReverseRequest → ReverseResult
reversal_of req = record {
  status = ResultStatus.success;
  failure = none;
  reversal = some (record {
    redemption_id = req.redemption_id;
    provider_redemption_id = req.provider_redemption_id;
    reversal_id = req.reversal_id;
    provider_reversal_id = [];
    reversed_at = noon;
    outcome = record { reversed = record { discount = none }; restored = record { money = none } };
    provider_data = [];
  });
}

abbrev coupon : Driver Bool
coupon = record {
  descriptor = reversible;
  redescribed = reversible;
  inspect = λ req used. (ok info, used);
  evaluate = λ req used. (ok eligible, used);
  redeem =
      λ req used. (if used then err (foreign 0) else ok (redeemed_under req.redemption_id), true);
  reverse = some (λ req used. (if used then ok (reversal_of req) else err (foreign 1), false));
}

abbrev expects : Bool → Bool → Verdict × Bool
expects wanted used = (if same wanted used then passed else fatal "unexpected provider state", used)

abbrev fixture : Fixture Bool Bool
fixture = record {
  driver = some coupon;
  inspect = record { request = coupon_request };
  evaluate = record { request = coupon_request };
  redeem = redeem_request;
  reverse = reverse_request;
  original = none;
  input_snapshot = none;
  consumption_snapshot = some (λ used. used);
  assert_redeemed = some (λ req r. expects true);
  assert_reversed = some (λ req r. expects false);
}

-- Each call makes a coupon that is not used.
abbrev factory : ℕ → Prepared Bool Bool
factory n = record { fixture = fixture; state = false }

-- A coupon that is used before the tests cannot be redeemed.
abbrev used_up : ℕ → Prepared Bool Bool
used_up n = record { fixture = fixture; state = true }

inspect_run : subtest json same (inspect_evaluate_redeem same) (factory 0) ≡ returned tt
unfolding subtest go_benefit.Core.Driver.validate_descriptor
    go_benefit.Core.Info.validate_driver_type go_benefit.Core.Identifier.validate_namespaced_value
    go_benefit.Prelude.list_beq go_benefit.Core.Operation.validate_capabilities
    go_benefit.Core.Operation.Operation-discrete go_benefit.Core.Operation.OperationMode-discrete
    go_benefit.Core.Config.validate_config_schema go_benefit.Text.Space.trim_space
    go_benefit.Dict.lookup go_benefit.Core.Operation.get_capability inspect_evaluate_redeem
    go_benefit.Core.Info.validate_benefit_info go_benefit.Core.Status.validate_status
    go_benefit.Core.Status.validate_validity go_benefit.Int64.beq_ℤ
    go_benefit.Core.Info.validate_usage go_benefit.Core.Operation.validate_policies
    go_benefit.Core.Info.validate_notices go_benefit.Drivertest.check_evaluation
    go_benefit.Core.Results.validate_evaluation_result
    go_benefit.Core.Constraint.ConstraintReportStatus-discrete
    go_benefit.Core.Outcome.validate_outcome go_benefit.Drivertest.check_redeem
    go_benefit.Core.Info.validate_redeem_request go_benefit.Core.Results.validate_redeem_result
    go_benefit.Core.Status.ResultStatus-discrete
inspect_run = refl

reverse_run : subtest json same (redeem_reverse same) (factory 2) ≡ returned tt
unfolding subtest go_benefit.Core.Driver.validate_descriptor
    go_benefit.Core.Info.validate_driver_type go_benefit.Core.Identifier.validate_namespaced_value
    go_benefit.Prelude.list_beq go_benefit.Core.Operation.validate_capabilities
    go_benefit.Core.Operation.Operation-discrete go_benefit.Core.Operation.OperationMode-discrete
    go_benefit.Core.Config.validate_config_schema go_benefit.Text.Space.trim_space
    go_benefit.Dict.lookup go_benefit.Core.Operation.get_capability redeem_reverse
    go_benefit.Drivertest.check_redeem go_benefit.Core.Info.validate_redeem_request
    go_benefit.Core.Results.validate_redeem_result go_benefit.Core.Outcome.validate_outcome
    go_benefit.Core.Status.ResultStatus-discrete go_benefit.Drivertest.check_reverse
    go_benefit.Core.Info.validate_reverse_request go_benefit.Core.Results.validate_reverse_result
    go_benefit.Core.Outcome.validate_reversal_outcome go_benefit.Core.Outcome.validate_restoration
reverse_run = refl

used_up_run :
    subtest json same (redeem_without_evaluate json same) (used_up 1) ≡ failed "Redeem failed: %v"
unfolding subtest go_benefit.Core.Driver.validate_descriptor
    go_benefit.Core.Info.validate_driver_type go_benefit.Core.Identifier.validate_namespaced_value
    go_benefit.Prelude.list_beq go_benefit.Core.Operation.validate_capabilities
    go_benefit.Core.Operation.Operation-discrete go_benefit.Core.Operation.OperationMode-discrete
    go_benefit.Core.Config.validate_config_schema go_benefit.Text.Space.trim_space
    go_benefit.Dict.lookup go_benefit.Core.Operation.get_capability redeem_without_evaluate
used_up_run = refl

run-passes_iff_example : (all is_pass (run json same factory) ≡ true) ↔ Conforms json same factory
run-passes_iff_example = run-passes_iff json same factory

constant :
    (n : ℕ) (d : Driver Bool) → (factory n).fixture.driver ≡ some d → d.redescribed ≡ d.descriptor
constant n d h = ground arith

run-never_panics_example :
    All (λ o. o ≢ panicked) (run json same factory) × (length (run json same factory) ≡ 3)
run-never_panics_example = run-never_panics json same factory constant
