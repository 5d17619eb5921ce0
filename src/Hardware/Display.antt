-- ===== src/Hardware/Display.antt =====
-- src/threshold/hardware/display.py: the display's states. A time is a UTC microsecond. The Unicode
-- tables of `sanitize_agent` are parameters; an overflow past year 9999 is not modelled.
pub mod Latch
pub mod Sanitize
mod Examples
use threshold_node.Base.{
  ltb, leb, eqb, if◌then◌else◌, is_some, take, codes, Result, ok, err, ◌>>=◌, ℕ, ◌+◌, Bool, true,
  false, not, ◌&&◌, Option, none, some, List, [], ◌∷◌,
}
use threshold_node.Core.Timestamp.{Moment, not_a_datetime, naive, aware}

-- `timedelta(seconds=2)` and `timedelta(seconds=4)` in microseconds.
abbrev pub read_duration : ℕ
read_duration = 2000000

abbrev pub deny_duration : ℕ
deny_duration = 4000000

abbrev pub max_agent_chars : ℕ
max_agent_chars = 32

abbrev pub max_agent_input_chars : ℕ
max_agent_input_chars = 256

abbrev pub max_display_grants : ℕ
max_display_grants = 9999

pub data DisplayError : Type 0 where
  clock_invalid count_invalid : DisplayError

pub data DisplayMode : Type 0 where
  armed_mode read_mode deny_mode tripped_mode : DisplayMode

pub record DisplayFrame : Type 0 where
  pub mode : DisplayMode
  pub active_grants : ℕ
  pub agent : Option (List ℕ)

-- `_Transient`
pub record Transient : Type 0 where
  pub mode : DisplayMode
  pub agent : List ℕ
  pub started_at : ℕ
  pub expires_at : ℕ

pub record DisplayState : Type 0 where
  pub tripped : Bool
  pub transient : Option Transient

-- `DisplayState()`
abbrev pub fresh_display : DisplayState
fresh_display = record { tripped = false; transient = none }

-- `_utc`
unfoldable pub utc : Moment → Result DisplayError ℕ
utc not_a_datetime = err clock_invalid
utc naive = err clock_invalid
utc (aware t) = ok t

-- `_grant_count`; `none` is a value that is no `int`, is a `bool` or is negative.
unfoldable pub grant_count : Option ℕ → Result DisplayError ℕ
grant_count none = err count_invalid
grant_count (some n) = if leb n max_display_grants then ok n else err count_invalid

module _ (nfkc : List ℕ → List ℕ) (is_space is_control : ℕ → Bool) where
  -- The loop over the characters: white space becomes a space, category C is dropped.
  printable : List ℕ → List ℕ
  printable [] = []
  printable (c ∷ r) =
      let rest = printable r in
      if is_space c then b' ' ∷ rest else (if is_control c then rest else c ∷ rest)

  -- `" ".join(text.split())`, where white space is the space alone; the first argument holds
  -- whether a word stands before.
  mutual
    pub squeeze : Bool → List ℕ → List ℕ
    squeeze before [] = []
    squeeze before (c ∷ r) = if eqb c b' ' then squeeze_gap before r else c ∷ squeeze true r

    pub squeeze_gap : Bool → List ℕ → List ℕ
    squeeze_gap before [] = []
    squeeze_gap before (c ∷ r) =
        if eqb c b' '
        then squeeze_gap before r
        else (if before then b' ' ∷ c ∷ squeeze true r else c ∷ squeeze true r)

  or_unknown : List ℕ → List ℕ
  or_unknown [] = codes "UNKNOWN"
  or_unknown (c ∷ r) = c ∷ r

  -- `none` is a value that is no text.
  unfoldable pub sanitize_agent : Option (List ℕ) → List ℕ
  unfolding printable squeeze or_unknown
  sanitize_agent none = codes "UNKNOWN"
  sanitize_agent (some value) =
      or_unknown
        (take max_agent_chars (squeeze false (printable (nfkc (take max_agent_input_chars value)))))

  -- `_with_transient`
  with_transient :
      DisplayMode → ℕ → Option (List ℕ) → Moment → DisplayState → Result DisplayError DisplayState
  unfolding utc
  with_transient mode duration agent now s = if s.tripped then ok s else (do
    started_at ← utc now
    ok (record {
      tripped = false;
      transient = some (record {
        mode = mode;
        agent = sanitize_agent agent;
        started_at = started_at;
        expires_at = started_at + duration;
      });
    }))

  unfoldable pub on_read :
      Option (List ℕ) → Moment → DisplayState → Result DisplayError DisplayState
  unfolding with_transient
  on_read agent now s = with_transient read_mode read_duration agent now s

  unfoldable pub on_deny :
      Option (List ℕ) → Moment → DisplayState → Result DisplayError DisplayState
  unfolding with_transient
  on_deny agent now s = with_transient deny_mode deny_duration agent now s

-- Both branches of `DisplayState.trip` have these fields.
unfoldable pub trip_display : DisplayState → DisplayState
trip_display s =
    if s.tripped && not (is_some s.transient)
    then s
    else record { tripped = true; transient = none }

unfoldable pub rearm_display : DisplayState → DisplayState
rearm_display s = if s.tripped then fresh_display else s

visible : Bool → Option Transient → ℕ → ℕ → DisplayFrame
visible true transient count current = record {
  mode = tripped_mode;
  active_grants = count;
  agent = none;
}
visible false none count current = record { mode = armed_mode; active_grants = count; agent = none }
visible false (some t) count current =
    if leb t.started_at current && ltb current t.expires_at
    then record { mode = t.mode; active_grants = count; agent = some t.agent }
    else record { mode = armed_mode; active_grants = count; agent = none }

-- `DisplayState.frame`
unfoldable pub frame : Option ℕ → Moment → DisplayState → Result DisplayError DisplayFrame
unfolding utc grant_count visible
frame active_grants now s = do
  count ← grant_count active_grants
  current ← utc now
  ok (visible s.tripped s.transient count current)
