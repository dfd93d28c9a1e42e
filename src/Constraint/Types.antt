-- ===== src/Constraint/Types.antt =====
-- constraint/input.go, constraint/types.go and the Evaluator of constraint/registry.go.
use go_benefit.Prelude.{Option, none, some, if◌then◌else◌}
use go_benefit.Int64.{int_eq}
use go_benefit.Text.{bytes}
use go_benefit.Time.{Time, is_zero}
use go_benefit.Errors.{Error, Result}
use go_benefit.Core.Diagnostic.{Value}
use go_benefit.Core.Constraint.{Constraint, ConstraintType, ConstraintDecision}
use go_benefit.Core.Info.{BenefitInfo}

-- What ctx.Err() answers during a call.
pub record Context : Type 0 where
  pub ctx_err : Option Error

pub record Input : Type 0 where
  pub benefit : BenefitInfo
  pub input : Option Value
  pub now : Time

-- `clock` is the reading of time.Now().
unfoldable pub evaluation_time : Time → Input → Time
evaluation_time clock in_ = if is_zero in_.now then clock else in_.now

abbrev pub Evaluator : Type 0
Evaluator = Context → Constraint → Input → Result ConstraintDecision

-- A value of the interface type Evaluator: nil, an EvaluatorFunc, which may itself be nil, or a
-- value of another type.
pub data EvaluatorValue : Type 0 where
  nil : EvaluatorValue
  func : Option Evaluator → EvaluatorValue
  object : Evaluator → EvaluatorValue

-- The Evaluate method of a value that is not nil.
unfoldable pub live : EvaluatorValue → Option Evaluator
live EvaluatorValue.nil = none
live (EvaluatorValue.func f) = f
live (EvaluatorValue.object f) = some f

abbrev pub weekday_type : ConstraintType
weekday_type = bytes "benefit.weekday"

abbrev pub time_range_type : ConstraintType
time_range_type = bytes "benefit.time_range"

abbrev pub maximum_amount_type : ConstraintType
maximum_amount_type = bytes "benefit.maximum_amount"

abbrev pub minimum_amount_type : ConstraintType
minimum_amount_type = bytes "benefit.minimum_amount"

abbrev pub redemption_limit_type : ConstraintType
redemption_limit_type = bytes "benefit.redemption_limit"
