-- ===== src/Constraint/Builtin/Time/Laws.antt =====
-- When the time-based evaluators are satisfied, and how the time range agrees with ResolveStatus.
use go_benefit.Prelude.{
  ◌≡◌, ◌↔◌, inl, inr, true, false, none, List, [], ◌∷◌, All, has, has_not_nil, is_nil, arith,
}
use go_benefit.Int64.{ℤ, pos, ◌≤ℤ◌, int_eq, beq_ℤ}
use go_benefit.Time.{Time}
use go_benefit.Text.{Text}
use go_benefit.Errors.{Result, ok}
use go_benefit.Errors.Laws.{Result-cases}
use go_benefit.Core.Status.{Status, Validity, validate_validity, is_zero_validity}
use go_benefit.Core.Constraint.{Constraint, ConstraintDecisionCode}
use go_benefit.Constraint.Types.{Context, Input, evaluation_time}
use go_benefit.Evaluation.Status.{StatusFacts, resolve_status}
use go_benefit.Constraint.Builtin.Time.{
  TimeRangeParams, range_decision, WeekdayParams, Zones, zoned, all_weekdays, weekday_decision,
}

abbrev pub range_of : Validity → TimeRangeParams
range_of v = record { starts_at = v.starts_at; expires_at = v.expires_at }

-- A provider that says active, with usage left.
abbrev pub active_facts : Validity → StatusFacts
active_facts v = record { usage_exhausted = false; provider_status = Status.active; validity = v }

-- Over a validity window that is valid and has an end, the time range constraint is satisfied at
-- exactly the times at which an active benefit with that window resolves to active.
pub range_decision-resolve_status :
    (v : Validity) (now : Time)
    → validate_validity v ≡ ok tt
    → is_zero_validity v ≡ false
    → ((range_decision (range_of v) now).code ≡ ConstraintDecisionCode.satisfied)
      ↔ (resolve_status now (active_facts v) ≡ Status.active)
unfolding range_decision resolve_status validate_validity beq_ℤ
range_decision-resolve_status v now valid bounded = ground arith

abbrev pub IsWeekday : ℤ → Type 0
IsWeekday day = (pos 0 ≤ℤ day) × (day ≤ℤ pos 6)

all_weekdays_iff : (days : List ℤ) → (all_weekdays days ≡ true) ↔ All IsWeekday days
unfolding all_weekdays
all_weekdays_iff [] = ground arith
all_weekdays_iff (d ∷ days) = ground (arith, all_weekdays_iff days)

-- A weekday constraint is satisfied exactly when the time can be taken to the configured zone, every
-- listed day is from 0 to 6, and the day of the zoned time is listed.
pub weekday_decision-satisfied_iff :
    (zones : Zones) (p : WeekdayParams) (now : Time)
    → ((weekday_decision zones p now).code ≡ ConstraintDecisionCode.satisfied) ↔ (
        (at : Time) × (zoned zones p.timezone now ≡ ok at)
        × All IsWeekday p.weekdays
        × (has p.weekdays (pos (zones.weekday at)) ≡ true))
unfolding weekday_decision
weekday_decision-satisfied_iff zones p now = elim (Result-cases (zoned zones p.timezone now)) [
  | inl (e, failed) ↦
      (λ h. absurd (ground arith), λ (at, loaded, days, listed). absurd (ground arith))
  | inr (at, loaded) ↦ (
    λ h. (at, loaded, ground (arith, all_weekdays_iff p.weekdays), ground arith),
    λ (later, loaded', days, listed).
        let same : at ≡ later = ground arith in
        ground (
          arith,
          all_weekdays_iff p.weekdays,
          has_not_nil p.weekdays (pos (zones.weekday later)) listed,
        ),
  )
]

-- The call is live, and the parameters decode to days from 0 to 6 that list the day on which the
-- evaluation falls in the configured zone.
pub record IsListed (clock : Time) (zones : Zones) (decode : Text → Result WeekdayParams)
    (ctx : Context) (c : Constraint) (input : Input) : Type 0 where
  pub live : ctx.ctx_err ≡ none
  pub params : WeekdayParams
  pub given : is_nil c.params ≡ false
  pub decoded : decode c.params ≡ ok params
  pub at : Time
  pub loaded : zoned zones params.timezone (evaluation_time clock input) ≡ ok at
  pub days : All IsWeekday params.weekdays
  pub listed : has params.weekdays (pos (zones.weekday at)) ≡ true
