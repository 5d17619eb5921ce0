-- ===== src/Grants/Authority/Mutations/Examples.antt =====
-- The calls of grants/authority.py at a concrete grant, on a disk from which it is reloaded.
use threshold_node.Base.{lookup, ok, ℕ, String, ◌≡◌, refl, true, false, none, some, [], ◌∷◌}
use threshold_node.Grants.Store.Envelope.{valid_state, save_state}
use threshold_node.Grants.Store.{target_digest, pending_semantics, base_grants, pending_base}
use threshold_node.Grants.Record.{
  is_grant_id, is_zone_id, bounded_text, timestamp_of, valid_window, validate_record,
  distinct_records, valid_grants, sorted_records,
}
use threshold_node.Grants.Manager.{
  grant_inactive, grant_active, GrantDecision, normalize_time, parse_window, decision,
}
use threshold_node.Grants.Authority.Mutations.{
  exclusive, decide, revoke_grant, commit_expiry, authorized, suspend_grants, expire_next,
  expire_one, expire_due, snapshot_locked, grant_snapshot,
}
use threshold_node.Grants.Authority.Commit.{commit}
use threshold_node.Grants.Authority.Changes.{Attempt, active_statuses, suspend_each, sorted_ids}
use threshold_node.Grants.Authority.{
  Authority, zones_bound, bindings_valid, witness_stands, witness_commits, verify_clean_state,
  base_stands, verify_pending_base, settle, settle_appended, recover_inspected, recover, install,
  reload_pending, reload_from, ensure_ready,
}
use threshold_node.Core.Timestamp.{aware, is_rfc3339, replace_z, split_first}
use threshold_node.Core.LedgerEntry.{
  is_hex_run, is_digest, is_transaction_id, event_of, valid_timestamp, normalize, payload_of,
}
use threshold_node.Core.Ledger.Prepared.{
  bytes_eq, encode_entry, prepare_entry, append_canonical, inspect_prepared, has_history,
  append_prepared, rebuild_prepared_event, verify_witness,
}
use threshold_node.Core.Ledger.{
  rfind_newline, find_newline, newline_at, repair_within, repair_incomplete_tail, append_bytes,
  checkpoint_digest, checkpoint_of, checkpoint_matches,
}
use threshold_node.Grants.Authority.Mutations.Snapshot.{grant_snapshot-settled}
use threshold_node.Core.Types.{GrantStatus, revoked, suspended, Grant}
use threshold_node.Grants.Authority.Mutations.Authorized.{authorized-allowed}
use threshold_node.Core.Auth.{is_valid_bearer_token, token_matches}
use threshold_node.Grants.Authority.Commit.Atomic.{reloads}
use threshold_node.Grants.Authority.Mutations.Withdrawals.{
  revoke_grant-authorized, suspend_grants-authorized,
}
use threshold_node.Grants.Authority.Samples.{
  kitchen_house, visitor, plain_env, issued_state, issued_disk, good_ends, new_authority,
  second_attempt, supplied_token,
}
use threshold_node.Grants.Platform.{Disk}

abbrev refused_as : GrantStatus → GrantDecision
refused_as status = record { allowed = false; reason = grant_inactive status; next_status = none }

abbrev revoked_disk : Authority × Disk
revoked_disk =
    reloads plain_env kitchen_house (good_ends ∷ [])
      (revoke_grant plain_env kitchen_house good_ends second_attempt new_authority issued_disk
        "g-visitor" (aware 0)).1

abbrev suspended_disk : Authority × Disk
suspended_disk =
    reloads plain_env kitchen_house (good_ends ∷ [])
      (suspend_grants plain_env kitchen_house good_ends second_attempt new_authority issued_disk
        (aware 0)).1

run_revoke :
    (revoke_grant plain_env kitchen_house good_ends second_attempt new_authority issued_disk
      "g-visitor"
      (aware 0)).0
    ≡ ok (record visitor { status = revoked }, true)
unfolding revoke_grant exclusive ensure_ready install valid_state valid_grants validate_record
    is_grant_id bounded_text is_zone_id valid_window timestamp_of is_rfc3339 is_digest
    is_transaction_id verify_clean_state target_digest verify_witness find_newline normalize
    payload_of event_of valid_timestamp encode_entry bindings_valid commit normalize_time
    prepare_entry repair_incomplete_tail repair_within save_state checkpoint_of checkpoint_digest
    pending_semantics pending_base append_prepared append_canonical checkpoint_matches
run_revoke = refl

run_refused :
    (authorized plain_env kitchen_house good_ends second_attempt revoked_disk.0 revoked_disk.1
      "g-visitor" supplied_token
      (aware 0)
      "READ").0
    ≡ ok (record visitor { status = revoked }, refused_as revoked)
unfolding authorized exclusive ensure_ready install reloads revoke_grant valid_state valid_grants
    validate_record is_grant_id bounded_text is_zone_id valid_window timestamp_of is_rfc3339
    is_digest is_transaction_id verify_clean_state target_digest verify_witness find_newline
    normalize payload_of event_of valid_timestamp encode_entry bindings_valid commit normalize_time
    prepare_entry repair_incomplete_tail repair_within save_state checkpoint_of checkpoint_digest
    pending_semantics pending_base append_prepared append_canonical checkpoint_matches
    is_valid_bearer_token token_matches decision
run_refused = refl

revoke_grant-authorized_example : (refused_as revoked).allowed ≡ false
revoke_grant-authorized_example =
    revoke_grant-authorized plain_env kitchen_house good_ends second_attempt new_authority
      issued_disk "g-visitor" (aware 0) (record visitor { status = revoked }, true) (good_ends ∷ [])
      good_ends second_attempt supplied_token (aware 0) "READ" (record visitor { status = revoked })
      (refused_as revoked) run_revoke run_refused

run_suspend :
    (suspend_grants plain_env kitchen_house good_ends second_attempt new_authority issued_disk
      (aware 0)).0
    ≡ ok 1
unfolding suspend_grants exclusive ensure_ready install valid_state valid_grants validate_record
    is_grant_id bounded_text is_zone_id valid_window timestamp_of is_rfc3339 is_digest
    is_transaction_id verify_clean_state target_digest verify_witness find_newline normalize
    payload_of event_of valid_timestamp encode_entry bindings_valid commit suspend_each
    active_statuses normalize_time prepare_entry repair_incomplete_tail repair_within save_state
    checkpoint_of checkpoint_digest pending_semantics pending_base append_prepared append_canonical
    checkpoint_matches
run_suspend = refl

run_suspended :
    (authorized plain_env kitchen_house good_ends second_attempt suspended_disk.0 suspended_disk.1
      "g-visitor" supplied_token
      (aware 0)
      "READ").0
    ≡ ok (record visitor { status = suspended }, refused_as suspended)
unfolding authorized exclusive ensure_ready install reloads suspend_grants valid_state valid_grants
    validate_record is_grant_id bounded_text is_zone_id valid_window timestamp_of is_rfc3339
    is_digest is_transaction_id verify_clean_state target_digest verify_witness find_newline
    normalize payload_of event_of valid_timestamp encode_entry bindings_valid commit suspend_each
    active_statuses normalize_time prepare_entry repair_incomplete_tail repair_within save_state
    checkpoint_of checkpoint_digest pending_semantics pending_base append_prepared append_canonical
    checkpoint_matches is_valid_bearer_token token_matches decision
run_suspended = refl

suspend_grants-authorized_example : (refused_as suspended).allowed ≡ false
suspend_grants-authorized_example =
    suspend_grants-authorized plain_env kitchen_house good_ends second_attempt new_authority
      issued_disk (aware 0) 1 (good_ends ∷ []) good_ends second_attempt "g-visitor" supplied_token
      (aware 0) "READ" (record visitor { status = suspended }) (refused_as suspended) run_suspend
      run_suspended

run_authorized :
    (authorized plain_env kitchen_house good_ends second_attempt new_authority issued_disk
      "g-visitor" supplied_token
      (aware 0)
      "READ").0
    ≡ ok (visitor, record { allowed = true; reason = grant_active; next_status = none })
unfolding authorized exclusive ensure_ready install valid_state valid_grants validate_record
    is_grant_id bounded_text is_zone_id valid_window timestamp_of is_rfc3339 is_digest
    is_transaction_id verify_clean_state target_digest verify_witness find_newline normalize
    payload_of event_of valid_timestamp encode_entry bindings_valid is_valid_bearer_token
    token_matches decision parse_window
run_authorized = refl

authorized-allowed_example :
    (lookup "g-visitor"
        (ensure_ready plain_env kitchen_house good_ends new_authority issued_disk).0.grants
      ≡ some visitor)
    × (is_valid_bearer_token supplied_token ≡ true)
    × (token_matches plain_env.token_sha256 supplied_token visitor.credential_digest ≡ true)
    × ((decision plain_env.fromisoformat 0 visitor (some (aware 0))).allowed ≡ true)
    × ((authorized plain_env kitchen_house good_ends second_attempt new_authority issued_disk
          "g-visitor" supplied_token
          (aware 0)
          "READ").1
        ≡ ensure_ready plain_env kitchen_house good_ends new_authority issued_disk)
authorized-allowed_example =
    authorized-allowed plain_env kitchen_house good_ends second_attempt new_authority issued_disk
      "g-visitor" supplied_token (aware 0) "READ" visitor
      (record { allowed = true; reason = grant_active; next_status = none }) run_authorized refl

abbrev any_attempt : String → Attempt
any_attempt k = second_attempt

run_snapshot :
    (grant_snapshot plain_env kitchen_house good_ends any_attempt new_authority issued_disk
      (aware 0)).0
    ≡ ok issued_state.grants
unfolding grant_snapshot normalize_time exclusive ensure_ready install valid_state valid_grants
    validate_record is_grant_id bounded_text is_zone_id valid_window timestamp_of is_rfc3339
    is_digest is_transaction_id verify_clean_state target_digest append_canonical append_prepared
    bytes_eq encode_entry has_history inspect_prepared prepare_entry rebuild_prepared_event
    verify_witness append_bytes checkpoint_digest checkpoint_matches checkpoint_of find_newline
    newline_at repair_incomplete_tail repair_within rfind_newline event_of is_hex_run normalize
    payload_of valid_timestamp replace_z split_first sorted_ids commit commit_expiry decide
    expire_due expire_next expire_one snapshot_locked base_stands bindings_valid recover
    recover_inspected reload_from reload_pending settle settle_appended verify_pending_base
    witness_commits witness_stands zones_bound decision parse_window distinct_records sorted_records
    save_state base_grants pending_base pending_semantics
run_snapshot = refl

grant_snapshot-settled_example :
    (t : ℕ) × ((aware 0 ≡ aware t)
      × ((k : String) (g : Grant)
          → lookup k issued_state.grants ≡ some g
          → (decision plain_env.fromisoformat 0 g (some (aware t))).next_status ≡ none))
grant_snapshot-settled_example =
    grant_snapshot-settled plain_env kitchen_house good_ends any_attempt new_authority issued_disk
      (aware 0) issued_state.grants run_snapshot
