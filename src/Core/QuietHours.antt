-- ===== src/Core/QuietHours.antt =====
-- src/threshold/core/quiet_hours.py: the command gate of the quiet hours.
mod Window
mod Examples
use threshold_node.Base.{
  ltb, leb, eqb, if◌then◌else◌, codes, is_digit, ℕ, ◌+◌, ◌-◌, ◌*◌, String, Bool, true, false, ◌&&◌,
  ◌||◌, Option, none, some, List, [], ◌∷◌,
}

pub data QuietReason : Type 0 where
  quiet_hours_invalid quiet_hours_clock_invalid quiet_hours_active outside_quiet_hours : QuietReason

pub record QuietHoursDecision : Type 0 where
  pub allowed : Bool
  pub reason : QuietReason

-- `now: object`: an aware datetime gives its local hour and minute, and an `utcoffset()` may raise
-- or be missing.
pub data Clock : Type 0 where
  not_a_datetime offset_raises naive_clock : Clock
  aware_clock : ℕ → ℕ → Clock

-- `_HH_MM` and the two range checks, on the code points.
pub minute_of_codes : List ℕ → Option ℕ
minute_of_codes (a ∷ b ∷ c ∷ d ∷ e ∷ []) =
    if is_digit a && is_digit b && eqb c b':' && is_digit d && is_digit e
    then (let hour = (a - b'0') * 10 + (b - b'0') in
        let minute = (d - b'0') * 10 + (e - b'0') in
        if ltb 23 hour || ltb 59 minute then none else some (hour * 60 + minute))
    else none
minute_of_codes _ = none

-- `none` stands for a value that is no text.
unfoldable pub minute_of_day : Option String → Option ℕ
unfolding minute_of_codes
minute_of_day none = none
minute_of_day (some value) = minute_of_codes (codes value)

abbrev deny : QuietReason → QuietHoursDecision
deny r = record { allowed = false; reason = r }

is_quiet : ℕ → ℕ → ℕ → Bool
is_quiet start_minute end_minute current_minute =
    if ltb start_minute end_minute
    then (leb start_minute current_minute && ltb current_minute end_minute)
    else (leb start_minute current_minute || ltb current_minute end_minute)

at_clock : ℕ → ℕ → Clock → QuietHoursDecision
unfolding is_quiet
at_clock start_minute end_minute (aware_clock hour minute) =
    if eqb start_minute end_minute
    then deny quiet_hours_active
    else (if is_quiet start_minute end_minute (hour * 60 + minute)
        then deny quiet_hours_active
        else record { allowed = true; reason = outside_quiet_hours })
at_clock start_minute end_minute _ = deny quiet_hours_clock_invalid

between : Option ℕ → Option ℕ → Clock → QuietHoursDecision
unfolding at_clock
between (some start_minute) (some end_minute) now = at_clock start_minute end_minute now
between _ _ now = deny quiet_hours_invalid

unfoldable pub evaluate_command_quiet_hours :
    Option String → Option String → Clock → QuietHoursDecision
unfolding between
evaluate_command_quiet_hours quiet_start quiet_end now =
    between (minute_of_day quiet_start) (minute_of_day quiet_end) now
