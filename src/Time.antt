-- ===== src/Time.antt =====
-- time.Time as far as the packages use it: an instant, in nanoseconds from the zero Time (January 1
-- of year 1, UTC), and the name of its location. IsZero and Before look at the instant alone.
use go_benefit.Prelude.{Bool, ◌==◌}
use go_benefit.Int64.{ℤ, pos, ltb_ℤ, int_eq}
use go_benefit.Text.{Text}

pub record Time : Type 0 where
  pub instant : ℤ
  pub location : Text

abbrev pub is_zero : Time → Bool
is_zero t = t.instant == pos 0

abbrev pub before : Time → Time → Bool
before t u = ltb_ℤ t.instant u.instant
