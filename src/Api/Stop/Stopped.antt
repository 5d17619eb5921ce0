-- ===== src/Api/Stop/Stopped.antt =====
-- What the routes of the simulated interlock in api/server.py promise.
use threshold_node.Base.{
  Bool-cases, Option-cases, Result, ok, err, ℕ, ◌≡◌, ap, ◌⊎◌, inl, inr, Bool, true, not, ◌&&◌, some,
  arith,
}
use threshold_node.Grants.Authority.Commit.{AuthorityError}
use threshold_node.Api.Node.{Server, Node, Fate, files_of}
use threshold_node.Api.Stop.{
  TripResponse, appliance_enabled, durable_of, clock_of, trip_response, stop_at, after_stop,
  interlock_environment, tripped_node, post_trip, was_persisted, post_rearm,
}
use threshold_node.Api.Node.Usable.{is_armed}
use threshold_node.Hardware.Estop.Cycles.{trip_not_new}
use threshold_node.Hardware.Estop.Sequence.{trip_calls, trip_report}
use threshold_node.Hardware.Estop.{
  armed, tripped, is_tripped, persistence_succeeded, TripReport, count, Reading, safe_utc, trip,
  rearm,
}
use threshold_node.Hardware.Display.{trip_display}
use threshold_node.Grants.Manager.{normalize_time}
use threshold_node.Core.Config.{Settings}
use threshold_node.Core.Timestamp.{Moment, not_a_datetime, naive, aware}

clock_aware :
    (now : Moment) (t : ℕ) → safe_utc (clock_of (normalize_time now)) ≡ some t → now ≡ aware t
unfolding normalize_time safe_utc
clock_aware not_a_datetime t h = absurd (ground arith)
clock_aware naive t h = absurd (ground arith)
clock_aware (aware u) t h = ground arith

counted : (r : Result AuthorityError ℕ) (n : ℕ) → durable_of r ≡ count n → r ≡ ok n
counted (ok m) n h = ground arith
counted (err e) n h = absurd (ground arith)

module _ {F : Type 0} (before : F → F → Bool) (elapsed_between : F → F → F) (srv : Server) where
  trip_response_ok :
      (r : TripReport F) (v : TripResponse F)
      → trip_response r ≡ ok v
      → (persistence_succeeded r ≡ true)
        × (r.suspended_grants ≡ some v.suspended_grants)
        × (v.newly_tripped ≡ r.newly_tripped)
  unfolding trip_response
  trip_response_ok r v h = elim (Option-cases r.suspended_grants) [
    | inl e ↦ absurd (ground arith)
    | inr (n, e) ↦ (ground arith, ground arith, ground arith)
  ]

  -- A stop that is answered as new has latched the interlock, and its durable callback, the
  -- authority's emergency stop at the clock of the request, has returned the number of grants in the
  -- answer; the authority and the files are what it has left.
  pub post_trip-stops :
      (fate : Fate) (now : Moment) (rendered : Bool) (started ended : Reading F) (n : Node F)
      (v : TripResponse F)
      → let reply = post_trip before elapsed_between srv fate now rendered started ended n in
        reply.0 ≡ ok v
        → v.newly_tripped ≡ true
        → (t : ℕ) × ((now ≡ aware t)
            × ((stop_at srv fate n t).0 ≡ ok v.suspended_grants)
            × ((reply.1.authority, reply.1.disk) ≡ (stop_at srv fate n t).1)
            × (reply.1.interlock.state ≡ tripped)
            × (reply.1.display ≡ trip_display n.display))
  unfolding post_trip tripped_node interlock_environment after_stop
  post_trip-stops fate now rendered started ended n v h new =
      let env = interlock_environment srv fate n now rendered started ended in
      let result = trip before elapsed_between env n.interlock in
      elim (Bool-cases (appliance_enabled srv.settings)) [
        | inr off ↦ absurd (ground arith)
        | inl on ↦
            let (persisted, stopped, same_new) = trip_response_ok result.1 v (ground arith) in
            elim (Bool-cases (is_tripped n.interlock.state)) [
              | inl latched ↦
                  let old = trip_not_new before elapsed_between env n.interlock latched in
                  absurd (ground arith)
              | inr free ↦
                  let armed_then = is_armed n.interlock.state free in
                  let calls = trip_calls before elapsed_between env n.interlock armed_then in
                  let counts = trip_report before elapsed_between env n.interlock armed_then in
                  let (t, k, at, durable, some_k) = counts.3.0 persisted in
                  let back = counted (stop_at srv fate n t).0 k durable in
                  let clock = clock_aware now t at in
                  (
                    t,
                    (
                      clock,
                      ground arith,
                      (let there = ap (λ o. after_stop srv fate n o) at in ground arith),
                      (let shut = calls.1 in ground arith),
                      (ground arith),
                    ),
                  )
            ]
      ]

  -- The route rearms only an interlock that is armed or whose last stop was persisted, and leaves it
  -- armed with the authority and the files as they were.
  pub post_rearm-persisted :
      (settings : Settings) (n : Node F) (was_set : Bool)
      → (post_rearm settings n).0 ≡ ok was_set
      → ((n.interlock.state ≡ armed)
          ⊎ ((r : TripReport F) × (n.interlock.last_report ≡ some r)
              × (persistence_succeeded r ≡ true)))
        × ((post_rearm settings n).1.interlock.state ≡ armed)
        × ((post_rearm settings n).1.authority ≡ n.authority)
        × ((post_rearm settings n).1.disk ≡ n.disk)
  unfolding post_rearm was_persisted rearm
  post_rearm-persisted settings n was_set h = elim (Bool-cases (is_tripped n.interlock.state)) [
    | inr free ↦ (inl (is_armed n.interlock.state free), ground arith, ground arith, ground arith)
    | inl latched ↦ elim (Option-cases n.interlock.last_report) [
      | inl e ↦ absurd (ground arith)
      | inr (r, e) ↦ (inr (r, e, ground arith), ground arith, ground arith, ground arith)
    ]
  ]

  -- A rearm, or an attempt at one, leaves the authority and the files.
  pub rearm_same :
      (settings : Settings) (n : Node F) → files_of (post_rearm settings n).1 ≡ files_of n
  unfolding post_rearm was_persisted rearm
  rearm_same settings n = elim (Bool-cases (appliance_enabled settings)) [
    | inr off ↦ ground arith
    | inl on ↦
        elim (Bool-cases
          (is_tripped n.interlock.state && not (was_persisted n.interlock.last_report))) [
            | inl e ↦ ground arith
            | inr e ↦ ground arith
          ]
  ]
