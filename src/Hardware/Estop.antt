-- ===== src/Hardware/Estop.antt =====
-- src/threshold/hardware/estop.py: the simulated, latched stop interlock. The injected callbacks are
-- an `Environment` that says how each one ends; every callback that runs is noted in `calls`, with
-- the latch that it can observe. Monotonic readings are of a type `F` with its test and its
-- rounding, since the program's are floats.
pub mod Sequence
pub mod Cycles
mod Examples
use threshold_node.Base.{
  eqb, if◌then◌else◌, ℕ, ◌+◌, ◌-◌, Bool, true, false, ◌&&◌, Option, none, some, List, [], ◌∷◌, ◌++◌,
}
use threshold_node.Core.Timestamp.{Moment, not_a_datetime, naive, aware}

pub data InterlockState : Type 0 where
  armed tripped : InterlockState

abbrev pub is_tripped : InterlockState → Bool
is_tripped armed = false
is_tripped tripped = true

pub record TripNotice : Type 0 where
  pub tripped_at : Option ℕ
  pub persistence_succeeded : Bool
  pub suspended_grants : Option ℕ
  pub adapter_attempts : ℕ
  pub adapter_completions : ℕ
  pub adapter_failures : ℕ

pub record TripReport (F : Type 0) : Type 0 where
  pub state : InterlockState
  pub newly_tripped : Bool
  pub tripped_at : Option ℕ
  pub persistence_attempts : ℕ
  pub persistence_failures : ℕ
  pub suspended_grants : Option ℕ
  pub adapter_attempts : ℕ
  pub adapter_completions : ℕ
  pub adapter_failures : ℕ
  pub display_attempts : ℕ
  pub display_failures : ℕ
  pub receipt_attempts : ℕ
  pub receipt_failures : ℕ
  pub simulated_elapsed_ms : Option F

-- How the durable callback ends: with a count, with a value that is no count, or by raising.
pub data Durable : Type 0 where
  count : ℕ → Durable
  no_count raised : Durable

-- What the monotonic clock gives: a raise, no number (or a `bool`), or one that is not finite.
pub data Reading (F : Type 0) : Type 0 where
  clock_raised not_a_number not_finite : Reading F
  finite : F → Reading F

-- The configured callbacks and how they end; `false` is a raise of an `Exception`. No callback calls the
-- interlock back or raises another `BaseException`. `utc_clock` is `none` if it raises.
pub record Environment (F : Type 0) : Type 0 where
  pub monotonic_start : Reading F
  pub utc_clock : Option Moment
  pub display : Option Bool
  pub durable_trip : ℕ → Durable
  pub adapters : List Bool
  pub receipt : Option (TripNotice → Bool)
  pub monotonic_end : Reading F

pub data Call : Type 0 where
  call_monotonic call_utc call_display call_halt : Call
  call_durable : ℕ → Call
  call_receipt : TripNotice → Call

pub record Interlock (F : Type 0) : Type 0 where
  pub state : InterlockState
  pub last_report : Option (TripReport F)
  pub calls : List (Call × InterlockState)

module _ {F : Type 0} where
  -- One callback runs.
  pub call : Call → Interlock F → Interlock F
  call c s = record s { calls = s.calls ++ (c, s.state) ∷ [] }

  -- `_safe_monotonic`
  safe_monotonic : Reading F → Option F
  safe_monotonic clock_raised = none
  safe_monotonic not_a_number = none
  safe_monotonic not_finite = none
  safe_monotonic (finite v) = some v

-- `_safe_utc`
unfoldable pub safe_utc : Option Moment → Option ℕ
safe_utc none = none
safe_utc (some not_a_datetime) = none
safe_utc (some naive) = none
safe_utc (some (aware t)) = some t

-- What the durable callback reports: a valid count, or a failure.
abbrev pub observed : Durable → Option ℕ
observed (count n) = some n
observed no_count = none
observed raised = none

-- `int(callback is not None)`
abbrev pub attempts {ℓ} : {A : Type ℓ} → Option A → ℕ
attempts none = 0
attempts (some a) = 1

-- The failures of a callback that is configured and ends by the given value.
abbrev pub failures : Option Bool → ℕ
failures none = 0
failures (some true) = 0
failures (some false) = 1

-- `suspended_grants`: the durable callback runs only with a clock.
persisted : (ℕ → Durable) → Option ℕ → Option ℕ
persisted durable_trip none = none
persisted durable_trip (some t) = observed (durable_trip t)

-- `persistence_failures`
persist_failures : Option ℕ → Option ℕ → ℕ
persist_failures none suspended = 0
persist_failures (some t) none = 1
persist_failures (some t) (some n) = 0

receipt_ends : Option (TripNotice → Bool) → TripNotice → Option Bool
receipt_ends none notice = none
receipt_ends (some observe) notice = some (observe notice)

module _ {F : Type 0} where
  -- The adapters' loop, with its two counters: each one is called, however the one before ended.
  pub halt_each : List Bool → ℕ → ℕ → Interlock F → Interlock F × ℕ × ℕ
  unfolding call
  halt_each [] attempted done s = (s, attempted, done)
  halt_each (ends ∷ rest) attempted done s =
      halt_each rest (attempted + 1) (if ends then done + 1 else done) (call call_halt s)

  call_if {ℓ} : {A : Type ℓ} → Option A → Call → Interlock F → Interlock F
  call_if none c s = s
  call_if (some a) c s = call c s

  call_durable_at : Option ℕ → Interlock F → Interlock F
  call_durable_at none s = s
  call_durable_at (some t) s = call (call_durable t) s

  -- `_empty_tripped_report`
  empty_tripped_report : Bool → TripReport F
  empty_tripped_report newly = record {
    state = tripped;
    newly_tripped = newly;
    tripped_at = none;
    persistence_attempts = 0;
    persistence_failures = 0;
    suspended_grants = none;
    adapter_attempts = 0;
    adapter_completions = 0;
    adapter_failures = 0;
    display_attempts = 0;
    display_failures = 0;
    receipt_attempts = 0;
    receipt_failures = 0;
    simulated_elapsed_ms = none;
  }

  again : Option (TripReport F) → TripReport F
  unfolding empty_tripped_report
  again none = empty_tripped_report false
  again (some r) = record r { newly_tripped = false }

module _ {F : Type 0} (before : F → F → Bool) (elapsed_between : F → F → F) where
  -- `_elapsed_ms`
  elapsed_ms : Option F → Option F → Option F
  elapsed_ms none finished = none
  elapsed_ms (some a) none = none
  elapsed_ms (some a) (some b) = if before b a then none else some (elapsed_between a b)

  -- The body of `trip` on a latch that was armed.
  trip_armed : Environment F → Interlock F → Interlock F × TripReport F
  unfolding call halt_each call_if call_durable_at persisted persist_failures receipt_ends
      elapsed_ms
  trip_armed env s =
      let latched = record s { state = tripped } in
      let s1 = call call_monotonic latched in
      let started = safe_monotonic env.monotonic_start in
      let s2 = call call_utc s1 in
      let tripped_at = safe_utc env.utc_clock in
      let s3 = call_if env.display call_display s2 in
      let s4 = call_durable_at tripped_at s3 in
      let suspended = persisted env.durable_trip tripped_at in
      let failed = persist_failures tripped_at suspended in
      let (s5, attempted, done) = halt_each env.adapters 0 0 s4 in
      let notice : TripNotice = record {
        tripped_at = tripped_at;
        persistence_succeeded = eqb (attempts tripped_at) 1 && eqb failed 0;
        suspended_grants = suspended;
        adapter_attempts = attempted;
        adapter_completions = done;
        adapter_failures = attempted - done;
      } in
      let s6 = call_if env.receipt (call_receipt notice) s5 in
      let s7 = call call_monotonic s6 in
      let report : TripReport F = record {
        state = tripped;
        newly_tripped = true;
        tripped_at = tripped_at;
        persistence_attempts = attempts tripped_at;
        persistence_failures = failed;
        suspended_grants = suspended;
        adapter_attempts = attempted;
        adapter_completions = done;
        adapter_failures = attempted - done;
        display_attempts = attempts env.display;
        display_failures = failures env.display;
        receipt_attempts = attempts env.receipt;
        receipt_failures = failures (receipt_ends env.receipt notice);
        simulated_elapsed_ms = elapsed_ms started (safe_monotonic env.monotonic_end);
      } in
      (record s7 { last_report = some report }, report)

  -- `SimulatedLatchedInterlock.trip`
  unfoldable pub trip : Environment F → Interlock F → Interlock F × TripReport F
  unfolding again trip_armed safe_monotonic safe_utc
  trip env s = if is_tripped s.state then (s, again s.last_report) else trip_armed env s

-- `SimulatedLatchedInterlock.rearm`
unfoldable pub rearm : {F : Type 0} → Interlock F → Interlock F × Bool
rearm s = (record s { state = armed }, is_tripped s.state)

-- The property `TripReport.persistence_succeeded`
unfoldable pub persistence_succeeded : {F : Type 0} → TripReport F → Bool
persistence_succeeded r = eqb r.persistence_attempts 1 && eqb r.persistence_failures 0
