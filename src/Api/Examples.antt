-- ===== src/Api/Examples.antt =====
-- Requests to the demo node of api/server.py.
use threshold_node.Api.Commands.Gates.{Passed, post_command-gates}
use threshold_node.Api.Origin.{
  owner_methods, owner_origin_allowed, served, asked_method, origin_policy,
}
use threshold_node.Api.Origin.Owner.{origin_policy-allowed}
use threshold_node.Base.{
  text_in, ok, err, ℕ, ◌≤◌, String, ◌≡◌, refl, ◌≢◌, ◌⊎◌, inr, Bool, true, false, Option, some, List,
  [], ◌∷◌,
}
use threshold_node.Core.Ledger.Prepared.{
  bytes_eq, encode_entry, prepare_entry, append_canonical, append_prepared, verify_witness,
}
use threshold_node.Core.Config.{rpartition, is_loopback, bind_address, validate_runtime}
use threshold_node.Core.Auth.{is_valid_bearer_token, token_matches}
use threshold_node.Grants.Store.Envelope.{valid_state, save_state}
use threshold_node.Grants.Store.{target_digest, pending_semantics, base_grants, pending_base}
use threshold_node.Grants.Record.{
  is_grant_id, is_zone_id, bounded_text, timestamp_of, valid_window, validate_record,
  distinct_records, valid_grants, sorted_records,
}
use threshold_node.Grants.Manager.{normalize_time, parse_window, decision}
use threshold_node.Grants.Authority.Mutations.{exclusive, revoke_grant, authorized, suspend_grants}
use threshold_node.Grants.Authority.Commit.{commit}
use threshold_node.Grants.Authority.{
  zones_bound, bindings_valid, verify_clean_state, install, ensure_ready,
}
use threshold_node.Core.Timestamp.{aware, is_rfc3339, replace_z, split_first}
use threshold_node.Core.LedgerEntry.{
  is_hex_run, is_digest, is_transaction_id, event_of, valid_timestamp, normalize, payload_of,
}
use threshold_node.Core.Ledger.{
  rfind_newline, find_newline, newline_at, repair_within, repair_incomplete_tail, append_bytes,
  checkpoint_digest, checkpoint_of, checkpoint_matches, append_encoded,
}
use threshold_node.Api.Node.{
  Reply, with_clock, log_event, display_read, display_deny, deny_request, usable_grant,
}
use threshold_node.Api.Issuing.{PublicGrant, public_grant, post_revoke}
use threshold_node.Hardware.Estop.{
  armed, tripped, persistence_succeeded, TripReport, finite, safe_utc, trip, rearm,
}
use threshold_node.Hardware.Display.{
  fresh_display, utc, sanitize_agent, on_read, on_deny, trip_display, rearm_display,
}
use threshold_node.Grants.Authority.Changes.{active_statuses, suspend_each}
use threshold_node.Api.Stop.{
  TripResponse, trip_response, stop_at, interlock_environment, post_trip, post_rearm,
}
use threshold_node.Core.QuietHours.{minute_of_day, evaluate_command_quiet_hours}
use threshold_node.Api.Commands.{
  navigate, CommandRequest, within_boundary, evaluate_command, post_command,
}
use threshold_node.Housefile.ScopedView.{View, scoped_view}
use threshold_node.Api.Reads.{get_housefile}
use threshold_node.Api.Samples.{
  demo_settings, demo_server, demo_node, good_fate, never_before, difference, console_request,
}
use threshold_node.Api.Withheld.{post_trip-withholds, post_revoke-withholds}
use threshold_node.Api.Stop.Stopped.{post_trip-stops, post_rearm-persisted}
use threshold_node.Api.Reads.Disclosed.{Discloses, get_housefile-Discloses}
use threshold_node.Api.Errors.{adapter_not_configured}
use threshold_node.Grants.Authority.Samples.{kitchen_house, visitor, good_ends, supplied_token}
use threshold_node.Core.Config.Runtime.{validate_runtime-safe}
use threshold_node.Core.Types.{revoked}

abbrev read_reply : Reply ℕ View
read_reply = get_housefile demo_server good_fate "g-visitor" supplied_token (aware 0) demo_node

run_read : read_reply.0 ≡ ok (scoped_view kitchen_house visitor)
unfolding get_housefile with_clock normalize_time usable_grant authorized exclusive ensure_ready
    install valid_state valid_grants validate_record is_grant_id bounded_text is_zone_id
    valid_window timestamp_of is_rfc3339 is_digest display_deny display_read log_event encode_entry
    verify_witness append_bytes append_encoded find_newline newline_at repair_incomplete_tail
    repair_within rfind_newline event_of is_hex_run is_transaction_id normalize valid_timestamp
    replace_z split_first bindings_valid verify_clean_state zones_bound distinct_records
    sorted_records base_grants pending_base pending_semantics target_digest on_deny on_read
    sanitize_agent utc scoped_view payload_of is_valid_bearer_token token_matches decision
    parse_window
run_read = refl

get_housefile-Discloses_example :
    (t : ℕ) × ((aware 0 ≡ aware t)
      × Discloses demo_server good_fate "g-visitor" supplied_token demo_node t
          (scoped_view kitchen_house visitor)
          read_reply.1)
get_housefile-Discloses_example =
    get_housefile-Discloses demo_server good_fate "g-visitor" supplied_token (aware 0) demo_node
      (scoped_view kitchen_house visitor) run_read

abbrev to_kitchen : CommandRequest
to_kitchen = record { grant = "g-visitor"; verb = navigate; zone = "kitchen"; has_params = false }

abbrev command_reply : Reply ℕ (Unit {0})
command_reply = post_command demo_server good_fate to_kitchen supplied_token (aware 0) demo_node

run_command : command_reply.0 ≡ err adapter_not_configured
unfolding post_command with_clock normalize_time usable_grant authorized exclusive ensure_ready
    install valid_state valid_grants validate_record is_grant_id bounded_text is_zone_id
    valid_window timestamp_of is_rfc3339 is_digest evaluate_command within_boundary deny_request
    display_deny log_event encode_entry verify_witness append_bytes append_encoded find_newline
    newline_at repair_incomplete_tail repair_within rfind_newline event_of is_hex_run
    is_transaction_id normalize valid_timestamp evaluate_command_quiet_hours minute_of_day replace_z
    split_first bindings_valid verify_clean_state zones_bound distinct_records sorted_records
    base_grants pending_base pending_semantics target_digest on_deny sanitize_agent utc payload_of
    is_valid_bearer_token token_matches decision parse_window
run_command = refl

post_command-gates_example :
    (t : ℕ) × ((aware 0 ≡ aware t)
      × Passed demo_server good_fate to_kitchen supplied_token demo_node t command_reply.1)
post_command-gates_example =
    post_command-gates demo_server good_fate to_kitchen supplied_token (aware 0) demo_node
      run_command

abbrev stop_reply : Reply ℕ (TripResponse ℕ)
stop_reply =
    post_trip never_before difference demo_server good_fate (aware 0) true (finite 1) (finite 3)
      demo_node

abbrev stop_answer : TripResponse ℕ
stop_answer = record {
  newly_tripped = true;
  suspended_grants = 1;
  adapter_attempts = 0;
  adapter_completions = 0;
  adapter_failures = 0;
  display_updated = true;
  receipt_rendered = true;
  response_ms = some 2;
}

run_stop : stop_reply.0 ≡ ok stop_answer
unfolding post_trip trip_response persistence_succeeded trip normalize_time suspend_grants exclusive
    ensure_ready install valid_state valid_grants validate_record is_grant_id bounded_text
    is_zone_id valid_window timestamp_of is_rfc3339 interlock_environment encode_entry
    verify_witness find_newline event_of is_digest is_hex_run is_transaction_id normalize
    valid_timestamp replace_z split_first bindings_valid verify_clean_state zones_bound
    distinct_records sorted_records base_grants pending_base pending_semantics target_digest
    trip_display safe_utc payload_of commit suspend_each active_statuses prepare_entry
    repair_incomplete_tail repair_within save_state checkpoint_of checkpoint_digest append_prepared
    append_canonical checkpoint_matches
run_stop = refl

post_trip-stops_example :
    (t : ℕ) × ((aware 0 ≡ aware t)
      × ((stop_at demo_server good_fate demo_node t).0 ≡ ok 1)
      × ((stop_reply.1.authority, stop_reply.1.disk)
          ≡ (stop_at demo_server good_fate demo_node t).1)
      × (stop_reply.1.interlock.state ≡ tripped)
      × (stop_reply.1.display ≡ trip_display fresh_display))
post_trip-stops_example =
    post_trip-stops never_before difference demo_server good_fate (aware 0) true (finite 1)
      (finite 3) demo_node stop_answer run_stop refl

abbrev rearm_reply : Reply ℕ Bool
rearm_reply = post_rearm demo_settings stop_reply.1

run_rearm : rearm_reply.0 ≡ ok true
unfolding post_rearm post_trip trip normalize_time persistence_succeeded suspend_grants exclusive
    ensure_ready install valid_state valid_grants validate_record is_grant_id bounded_text
    is_zone_id valid_window timestamp_of is_rfc3339 interlock_environment trip_response encode_entry
    verify_witness find_newline event_of is_digest is_hex_run is_transaction_id normalize
    valid_timestamp replace_z split_first bindings_valid verify_clean_state zones_bound
    distinct_records sorted_records base_grants pending_base pending_semantics target_digest
    rearm_display trip_display rearm safe_utc payload_of commit suspend_each active_statuses
    prepare_entry repair_incomplete_tail repair_within save_state checkpoint_of checkpoint_digest
    append_prepared append_canonical checkpoint_matches
run_rearm = refl

post_rearm-persisted_example :
    ((stop_reply.1.interlock.state ≡ armed)
      ⊎ ((r : TripReport ℕ) × (stop_reply.1.interlock.last_report ≡ some r)
          × (persistence_succeeded r ≡ true)))
    × (rearm_reply.1.interlock.state ≡ armed)
    × (rearm_reply.1.authority ≡ stop_reply.1.authority)
    × (rearm_reply.1.disk ≡ stop_reply.1.disk)
post_rearm-persisted_example =
    post_rearm-persisted never_before difference demo_server demo_settings stop_reply.1 true
      run_rearm

post_trip-withholds_example :
    (get_housefile demo_server good_fate "g-visitor" supplied_token (aware 0) rearm_reply.1).0
    ≢ ok (scoped_view kitchen_house visitor)
post_trip-withholds_example =
    post_trip-withholds demo_server never_before difference good_fate (aware 0) true (finite 1)
      (finite 3) demo_node stop_answer good_fate "g-visitor" supplied_token (aware 0)
      (scoped_view kitchen_house visitor) run_stop refl

abbrev revoke_reply : Reply ℕ (PublicGrant × Bool)
revoke_reply = post_revoke demo_server good_ends good_fate "g-visitor" (aware 0) demo_node

run_revoke_route : revoke_reply.0 ≡ ok (public_grant (record visitor { status = revoked }), true)
unfolding post_revoke with_clock normalize_time ensure_ready install valid_state valid_grants
    validate_record is_grant_id bounded_text is_zone_id valid_window timestamp_of is_rfc3339
    is_digest is_transaction_id verify_clean_state target_digest public_grant encode_entry
    verify_witness find_newline event_of is_hex_run normalize valid_timestamp replace_z split_first
    exclusive revoke_grant bindings_valid zones_bound distinct_records sorted_records base_grants
    pending_base pending_semantics payload_of commit prepare_entry repair_incomplete_tail
    repair_within save_state checkpoint_of checkpoint_digest append_prepared append_canonical
    checkpoint_matches
run_revoke_route = refl

post_revoke-withholds_example :
    (get_housefile demo_server good_fate "g-visitor" supplied_token (aware 0) revoke_reply.1).0
    ≢ ok (scoped_view kitchen_house visitor)
post_revoke-withholds_example =
    post_revoke-withholds demo_server good_ends good_fate "g-visitor" (aware 0) demo_node
      (public_grant (record visitor { status = revoked }), true) good_fate supplied_token (aware 0)
      (scoped_view kitchen_house visitor) run_revoke_route

run_policy : origin_policy console_request ≡ served (some ("http://127.0.0.1:5173", "POST" ∷ []))
unfolding origin_policy owner_methods owner_origin_allowed
run_policy = refl

abbrev console_origin : String
console_origin = "http://127.0.0.1:5173"

origin_policy-allowed_example :
    (console_request.origin ≡ some "http://127.0.0.1:5173")
    × ((console_origin ≡ console_request.own_origin) ⊎ (console_origin ≡ "http://127.0.0.1:5173"))
    × ("POST" ∷ [] ≡ owner_methods "/grants")
    × (text_in (asked_method console_request) ("POST" ∷ []) ≡ true)
origin_policy-allowed_example =
    origin_policy-allowed console_request "http://127.0.0.1:5173" ("POST" ∷ []) (inr run_policy)

abbrev port_of : List ℕ → Option ℕ
port_of r = some 8471

abbrev any_digits : List ℕ → Bool
any_digits r = true

run_settings : validate_runtime any_digits port_of demo_settings ≡ ok tt
unfolding validate_runtime bind_address rpartition is_valid_bearer_token is_loopback bytes_eq
run_settings = refl

validate_runtime-safe_example :
    ((owner : String) × (demo_settings.owner_token ≡ some owner)
      × (is_valid_bearer_token (some owner) ≡ true))
    × ((host : List ℕ) × ((port : ℕ) × (bind_address any_digits port_of demo_settings
            ≡ ok (host, port))
          × (1 ≤ port)
          × (port ≤ 65535)
          × ((demo_settings.allow_network_bind ≡ true) ⊎ (is_loopback host ≡ true))))
    × (demo_settings.demo_mode ≡ true
        → (is_valid_bearer_token demo_settings.demo_grant_token ≡ true)
          × (demo_settings.owner_token ≢ demo_settings.demo_grant_token))
validate_runtime-safe_example = validate_runtime-safe any_digits port_of demo_settings run_settings
