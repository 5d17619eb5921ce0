-- ===== src/Api/Stop.antt =====
-- src/threshold/api/server.py: the routes of the simulated interlock, and its callbacks: the durable
-- one is the authority's emergency stop, the display's and the receipt's are the server's, and no
-- adapter is configured. `rendered` says whether the receipt's bitmap is built.
-- `SimulatedTripResponse` and `SimulatedRearmResponse`, without their constants.
pub mod Stopped
use threshold_node.Base.{
  eqb, if◌then◌else◌, is_some, Result, ok, err, ℕ, Bool, true, false, not, ◌&&◌, Option, none, some,
  [], ◌==◌,
}
use threshold_node.Api.Node.{Server, Node, Fate, Reply}
use threshold_node.Api.Errors.{HttpError, appliance_disabled, suspension_unavailable}
use threshold_node.Hardware.Estop.{
  is_tripped, TripNotice, persistence_succeeded, TripReport, Durable, count, raised, Reading,
  Environment, Interlock, safe_utc, trip, rearm,
}
use threshold_node.Hardware.Display.{trip_display, rearm_display}
use threshold_node.Grants.Authority.Mutations.{changed, suspend_grants}
use threshold_node.Grants.Authority.Commit.{AuthorityError, Step, report}
use threshold_node.Grants.Authority.{Authority}
use threshold_node.Grants.Platform.{Disk}
use threshold_node.Grants.Manager.{Refusal, normalize_time}
use threshold_node.Core.Config.{Settings}
use threshold_node.Core.Timestamp.{Moment, aware}

pub record TripResponse (F : Type 0) : Type 0 where
  pub newly_tripped : Bool
  pub suspended_grants : ℕ
  pub adapter_attempts : ℕ
  pub adapter_completions : ℕ
  pub adapter_failures : ℕ
  pub display_updated : Bool
  pub receipt_rendered : Bool
  pub response_ms : Option F

-- `_simulated_appliance_enabled`
abbrev pub appliance_enabled : Settings → Bool
appliance_enabled s = s.demo_mode && (s.esp32_serial == "SIMULATED")

-- What the durable callback reports.
abbrev pub durable_of : Result AuthorityError ℕ → Durable
durable_of (ok n) = count n
durable_of (err e) = raised

-- What the interlock's clock reads: `_request_utc`.
abbrev pub clock_of : Result Refusal ℕ → Option Moment
clock_of (ok t) = some (aware t)
clock_of (err e) = none

-- `_interlock_receipt`
receipt_ready : Bool → Authority → TripNotice → Bool
receipt_ready rendered a notice =
    notice.persistence_succeeded && is_some notice.tripped_at && a.ready && rendered

module _ {F : Type 0} where
  -- `_trip_response`
  unfoldable pub trip_response : TripReport F → Result HttpError (TripResponse F)
  trip_response r =
      if not (persistence_succeeded r)
      then err suspension_unavailable
      else (elim r.suspended_grants [
        | none ↦ err suspension_unavailable
        | some n ↦ ok (record {
          newly_tripped = r.newly_tripped;
          suspended_grants = n;
          adapter_attempts = r.adapter_attempts;
          adapter_completions = r.adapter_completions;
          adapter_failures = r.adapter_failures;
          display_updated = eqb r.display_attempts 1 && eqb r.display_failures 0;
          receipt_rendered = eqb r.receipt_attempts 1 && eqb r.receipt_failures 0;
          response_ms = r.simulated_elapsed_ms;
        })
      ])

  module _ (srv : Server) where
    -- `AUTHORITY.suspend_all` at the instant of the trip.
    abbrev pub stop_at : Fate → Node F → ℕ → Step ℕ
    stop_at fate n t =
        suspend_grants srv.env srv.file fate.reload fate.attempt n.authority n.disk (aware t)

    -- The authority and the files after the durable callback, which runs only with a clock.
    after_stop : Fate → Node F → Option ℕ → Authority × Disk
    after_stop fate n none = (n.authority, n.disk)
    after_stop fate n (some t) = (stop_at fate n t).1

    -- `_build_simulated_interlock`
    unfoldable pub interlock_environment :
        Fate → Node F → Moment → Bool → Reading F → Reading F → Environment F
    unfolding receipt_ready after_stop
    interlock_environment fate n now rendered started ended =
        let clock = clock_of (normalize_time now) in
        record {
          monotonic_start = started;
          utc_clock = clock;
          display = some true;
          durable_trip = λ t. durable_of (stop_at fate n t).0;
          adapters = [];
          receipt = some (receipt_ready rendered (after_stop fate n (safe_utc clock)).0);
          monotonic_end = ended;
        }

    -- The node after a trip: a latched interlock calls nothing.
    tripped_node : Fate → Moment → Node F → Interlock F → Node F
    unfolding after_stop
    tripped_node fate now n latched =
        if is_tripped n.interlock.state
        then record n { interlock = latched }
        else (let x = after_stop fate n (safe_utc (clock_of (normalize_time now))) in
            record {
              authority = x.0;
              disk = x.1;
              display = trip_display n.display;
              interlock = latched;
            })

  module _ (before : F → F → Bool) (elapsed_between : F → F → F) (srv : Server) where
    -- `trip_simulated_interlock`
    unfoldable pub post_trip :
        Fate → Moment → Bool → Reading F → Reading F → Node F → Reply F (TripResponse F)
    unfolding tripped_node interlock_environment
    post_trip fate now rendered started ended n =
        if not (appliance_enabled srv.settings)
        then (err appliance_disabled, n)
        else (let (latched, report) =
              trip before elapsed_between
                (interlock_environment srv fate n now rendered started ended) n.interlock in
            (trip_response report, tripped_node srv fate now n latched))

  -- The last trip was persisted.
  was_persisted : Option (TripReport F) → Bool
  was_persisted none = false
  was_persisted (some r) = persistence_succeeded r

  -- `rearm_simulated_interlock`; the response says whether the latch was set.
  unfoldable pub post_rearm : Settings → Node F → Reply F Bool
  unfolding was_persisted
  post_rearm settings n =
      if not (appliance_enabled settings)
      then (err appliance_disabled, n)
      else if is_tripped n.interlock.state && not (was_persisted n.interlock.last_report)
      then (err suspension_unavailable, n)
      else (let (released, changed) = rearm n.interlock in
          (ok changed, record n { display = rearm_display n.display; interlock = released }))
