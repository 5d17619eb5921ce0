-- ===== src/Core/QuietHours/Window.antt =====
-- The daily window of core/quiet_hours.py, against modular arithmetic on the minutes of a day.
use threshold_node.Base.{
  Option-cases, codes, ℕ, ◌+◌, ◌-◌, ◌*◌, ◌/◌, ◌%◌, ◌≤◌, ◌<◌, String, ◌≡◌, refl, ◌≢◌, ◌↔◌, inl, inr,
  true, Option, none, some, List, [], ◌∷◌, arith,
}
use threshold_node.Core.QuietHours.{
  Clock, not_a_datetime, offset_raises, naive_clock, aware_clock, minute_of_codes, minute_of_day,
  evaluate_command_quiet_hours,
}

-- A time that is read lies in the day.
pub minute_of_codes_bound : (v : List ℕ) (m : ℕ) → minute_of_codes v ≡ some m → m < 1440
unfolding minute_of_codes
minute_of_codes_bound [] m h = cc
minute_of_codes_bound (a ∷ []) m h = cc
minute_of_codes_bound (a ∷ b ∷ []) m h = cc
minute_of_codes_bound (a ∷ b ∷ c ∷ []) m h = cc
minute_of_codes_bound (a ∷ b ∷ c ∷ d ∷ []) m h = cc
minute_of_codes_bound (a ∷ b ∷ c ∷ d ∷ e ∷ []) m h = ground arith
minute_of_codes_bound (a ∷ b ∷ c ∷ d ∷ e ∷ f ∷ r) m h = cc

pub minute_of_day_bound : (v : Option String) (m : ℕ) → minute_of_day v ≡ some m → m < 1440
unfolding minute_of_day
minute_of_day_bound none m h = cc
minute_of_day_bound (some v) m h = minute_of_codes_bound (codes v) m h

-- The code points of `HH:MM`.
abbrev pub hh_mm : ℕ → ℕ → List ℕ
hh_mm hour minute =
    (b'0' + hour / 10)
    ∷ (b'0' + hour % 10)
    ∷ b':'
    ∷ (b'0' + minute / 10)
    ∷ (b'0' + minute % 10)
    ∷ []

-- Every time of day that is written as HH:MM is read back as its minute of the day.
pub minute_of_codes-hh_mm :
    (hour minute : ℕ)
    → hour < 24
    → minute < 60
    → minute_of_codes (hh_mm hour minute) ≡ some (hour * 60 + minute)
unfolding minute_of_codes
minute_of_codes-hh_mm hour minute hh hm = ground arith

-- How far into the daily window that starts at `start` the minute `t` lies.
abbrev pub since : ℕ → ℕ → ℕ
since start t = (t + 1440 - start) % 1440

-- With both times read and an aware clock, a command is allowed exactly when the window is not the
-- whole day and the time since its start has reached its length, both taken modulo a day.
pub allowed_iff :
    (quiet_start quiet_end : Option String) (start end hour minute : ℕ)
    → minute_of_day quiet_start ≡ some start
    → minute_of_day quiet_end ≡ some end
    → hour < 24
    → minute < 60
    → let t = hour * 60 + minute in
      ((evaluate_command_quiet_hours quiet_start quiet_end (aware_clock hour minute)).allowed
        ≡ true)
      ↔ ((start ≢ end) × (since start end ≤ since start t))
unfolding evaluate_command_quiet_hours
allowed_iff quiet_start quiet_end start end hour minute hs he hh hm =
    ground (arith, minute_of_day_bound quiet_start start hs, minute_of_day_bound quiet_end end he)

-- A command is allowed only if both times were read and the clock is aware: all else denies.
pub allowed_only :
    (quiet_start quiet_end : Option String) (now : Clock)
    → (evaluate_command_quiet_hours quiet_start quiet_end now).allowed ≡ true
    → (start : ℕ) × (end : ℕ) × (hour : ℕ) × (minute : ℕ) × (minute_of_day quiet_start ≡ some start)
      × (minute_of_day quiet_end ≡ some end)
      × (now ≡ aware_clock hour minute)
unfolding evaluate_command_quiet_hours
allowed_only quiet_start quiet_end not_a_datetime h = absurd (ground arith)
allowed_only quiet_start quiet_end offset_raises h = absurd (ground arith)
allowed_only quiet_start quiet_end naive_clock h = absurd (ground arith)
allowed_only quiet_start quiet_end (aware_clock hour minute) h =
    elim (Option-cases (minute_of_day quiet_start)) [
      | inl e ↦ absurd (ground arith)
      | inr (start, es) ↦ elim (Option-cases (minute_of_day quiet_end)) [
        | inl e ↦ absurd (ground arith)
        | inr (end, ee) ↦ (start, end, hour, minute, es, ee, refl)
      ]
    ]
