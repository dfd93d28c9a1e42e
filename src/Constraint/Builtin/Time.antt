-- ===== src/Constraint/Builtin/Time.antt =====
-- constraint/builtin_time.go. `clock` is the reading of time.Now(), `decode` json.Unmarshal at the
-- parameters of the evaluator; the time zone database is a parameter too.
pub mod Laws
use go_benefit.Prelude.{
  has, ℕ, zero, suc, Bool, true, false, not, ◌&&◌, ◌||◌, some, none, Option, List, [], ◌∷◌, is_nil,
  any, ◌==◌, if◌then◌else◌,
}
use go_benefit.Int64.{ℤ, pos, negsuc, ltb_ℤ, int_eq}
use go_benefit.Text.{Text, bytes}
use go_benefit.Time.{Time, is_zero, before}
use go_benefit.Errors.{Result, ok, err}
use go_benefit.Core.Diagnostic.{Reason, Value}
use go_benefit.Core.Constraint.{Constraint, ConstraintDecision, unmarshal_params}
use go_benefit.Constraint.Types.{Context, Input, Evaluator, evaluation_time}
use go_benefit.Constraint.Builtin.{invalid_constraint, constraint_decision}

pub record TimeRangeParams : Type 0 where
  pub starts_at : Time
  pub expires_at : Time

-- The window is [starts_at, expires_at), open where an end is the zero time.
unfoldable pub in_range : TimeRangeParams → Time → Bool
in_range params now =
    (is_zero params.starts_at || not (before now params.starts_at))
    && (is_zero params.expires_at || before now params.expires_at)

unfoldable pub range_decision : TimeRangeParams → Time → ConstraintDecision
unfolding in_range invalid_constraint constraint_decision
range_decision params now =
    if is_zero params.starts_at && is_zero params.expires_at
    then invalid_constraint (Reason.text (bytes "time range requires starts_at or expires_at"))
    else if not (is_zero params.starts_at)
        && not (is_zero params.expires_at)
        && not (before params.starts_at params.expires_at)
    then invalid_constraint (Reason.text (bytes "starts_at must be before expires_at"))
    else constraint_decision (in_range params now)
        (Reason.text (bytes "operation time is outside the allowed range"))
        (some ((bytes "evaluated_at", Value.time now) ∷ []))

unfoldable pub evaluate_time_range : Time → (Text → Result TimeRangeParams) → Evaluator
unfolding range_decision
evaluate_time_range clock decode ctx constraint input = elim ctx.ctx_err [
  | some e ↦ err e
  | none ↦ elim (unmarshal_params (some decode) constraint) [
    | err e ↦ ok (invalid_constraint (Reason.error_text e))
    | ok params ↦ ok (range_decision params (evaluation_time clock input))
  ]
]

pub record WeekdayParams : Type 0 where
  pub weekdays : List ℤ
  pub timezone : Text

-- time.LoadLocation, which yields the name of a location, and Time.Weekday, from 0 for Sunday.
pub record Zones : Type 0 where
  pub load_location : Text → Result Text
  pub weekday : Time → ℕ

-- Weekday.String on the seven days.
abbrev pub day_name : ℕ → Text
day_name zero = bytes "Sunday"
day_name (suc zero) = bytes "Monday"
day_name (suc (suc zero)) = bytes "Tuesday"
day_name (suc (suc (suc zero))) = bytes "Wednesday"
day_name (suc (suc (suc (suc zero)))) = bytes "Thursday"
day_name (suc (suc (suc (suc (suc zero))))) = bytes "Friday"
day_name _ = bytes "Saturday"

unfoldable pub is_weekday : ℤ → Bool
is_weekday day = not (ltb_ℤ day (pos 0) || ltb_ℤ (pos 6) day)

-- The time at which the weekday is read, in the configured location.
unfoldable pub zoned : Zones → Text → Time → Result Time
zoned zones timezone at = if is_nil timezone then ok at else elim (zones.load_location timezone) [
  | ok name ↦ ok (record at { location = name })
  | err e ↦ err e
]

-- The loop that fills the map of allowed weekdays stops at the first one out of range.
unfoldable pub all_weekdays : List ℤ → Bool
unfolding is_weekday
all_weekdays [] = true
all_weekdays (day ∷ days) = is_weekday day && all_weekdays days

unfoldable pub weekday_decision : Zones → WeekdayParams → Time → ConstraintDecision
unfolding zoned all_weekdays invalid_constraint constraint_decision
weekday_decision zones params now =
    if is_nil params.weekdays
    then invalid_constraint (Reason.text (bytes "weekdays must not be empty"))
    else elim (zoned zones params.timezone now) [
      | err e ↦ invalid_constraint (Reason.sprintf "invalid timezone %q")
      | ok at ↦
          if not (all_weekdays params.weekdays)
          then invalid_constraint (Reason.sprintf "invalid weekday %d")
          else constraint_decision (has params.weekdays (pos (zones.weekday at)))
              (Reason.text (bytes "operation weekday is not allowed"))
              (some (
                (bytes "weekday", Value.text (day_name (zones.weekday at)))
                ∷ (bytes "timezone", Value.text at.location)
                ∷ []))
    ]

unfoldable pub evaluate_weekday : Time → Zones → (Text → Result WeekdayParams) → Evaluator
unfolding weekday_decision
evaluate_weekday clock zones decode ctx constraint input = elim ctx.ctx_err [
  | some e ↦ err e
  | none ↦ elim (unmarshal_params (some decode) constraint) [
    | err e ↦ ok (invalid_constraint (Reason.error_text e))
    | ok params ↦ ok (weekday_decision zones params (evaluation_time clock input))
  ]
]
