-- ===== src/Core/QuietHours/Examples.antt =====
-- Runs of core/quiet_hours.py, and its theorems at concrete inputs.
use threshold_node.Base.{ℕ, ◌≤◌, ◌≡◌, refl, ◌≢◌, ◌↔◌, true, false, none, some, arith}
use threshold_node.Core.QuietHours.{
  quiet_hours_active, aware_clock, minute_of_day, evaluate_command_quiet_hours,
}
use threshold_node.Core.QuietHours.Window.{since, allowed_iff}

default_start : minute_of_day (some "21:30") ≡ some 1290
unfolding minute_of_day
default_start = refl

default_end : minute_of_day (some "06:30") ≡ some 390
unfolding minute_of_day
default_end = refl

no_such_hour : minute_of_day (some "24:00") ≡ none
unfolding minute_of_day
no_such_hour = refl

overnight :
    evaluate_command_quiet_hours (some "21:30") (some "06:30") (aware_clock 23 0)
    ≡ record { allowed = false; reason = quiet_hours_active }
unfolding evaluate_command_quiet_hours minute_of_day
overnight = refl

allowed_iff_example :
    ((evaluate_command_quiet_hours (some "21:30") (some "06:30") (aware_clock 6 30)).allowed ≡ true)
    ↔ ((◌≢◌ {A = ℕ} 1290 390) × (since 1290 390 ≤ since 1290 390))
allowed_iff_example =
    allowed_iff (some "21:30") (some "06:30") 1290 390 6 30 default_start default_end (omega arith)
      (omega arith)
