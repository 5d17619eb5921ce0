-- ===== src/Grants/Authority/Commit/Examples.antt =====
-- A commit of grants/authority.py at a concrete grant.
use threshold_node.Base.{ok, ◌≡◌, refl, ◌⊎◌, inl, false, [], ◌∷◌}
use threshold_node.Grants.Store.Envelope.{valid_state, save_state}
use threshold_node.Grants.Store.{target_digest, pending_semantics, pending_base}
use threshold_node.Grants.Record.{
  is_grant_id, is_zone_id, bounded_text, timestamp_of, valid_window, validate_record, valid_grants,
}
use threshold_node.Grants.Manager.{normalize_time}
use threshold_node.Grants.Authority.Commit.Atomic.{reloads, commit-atomic, commit-durable}
use threshold_node.Grants.Authority.Commit.{Change, commit}
use threshold_node.Grants.Authority.{
  bindings_valid, verify_clean_state, verify_pending_base, recover, install, ensure_ready,
}
use threshold_node.Core.Timestamp.{aware, is_rfc3339}
use threshold_node.Core.LedgerEntry.{
  is_digest, is_transaction_id, event_of, valid_timestamp, normalize, payload_of,
}
use threshold_node.Core.Ledger.Prepared.{
  encode_entry, prepare_entry, append_canonical, inspect_prepared, append_prepared,
  rebuild_prepared_event, verify_witness,
}
use threshold_node.Core.Ledger.{
  find_newline, repair_within, repair_incomplete_tail, checkpoint_digest, checkpoint_of,
  checkpoint_matches,
}
use threshold_node.Grants.Authority.Samples.{
  kitchen_house, second_id, plain_env, issued_state, issued_disk, issued_authority, good_ends,
  torn_ends,
}
use threshold_node.Grants.Authority.Commit.Outcomes.{Installed}
use threshold_node.Grants.Authority.Changes.{revoke_change}
use threshold_node.Core.Types.{active}

abbrev revoke_it : Change
revoke_it = revoke_change second_id "g-visitor" active issued_state.grants

run_commit :
    (commit plain_env kitchen_house good_ends issued_authority issued_disk (aware 0) revoke_it).0
    ≡ ok tt
unfolding commit bindings_valid normalize_time normalize event_of valid_timestamp is_rfc3339
    is_transaction_id prepare_entry encode_entry repair_incomplete_tail repair_within valid_grants
    validate_record is_grant_id bounded_text is_zone_id valid_window timestamp_of is_digest
    save_state valid_state checkpoint_of checkpoint_digest target_digest pending_semantics
    pending_base append_prepared payload_of append_canonical checkpoint_matches install
    verify_clean_state verify_witness find_newline
run_commit = refl

settled_start : Installed plain_env kitchen_house issued_authority issued_disk issued_state
settled_start = record { grants = refl; state = refl; clean = refl; based = inl refl }

commit-atomic_example :
    let x =
      reloads plain_env kitchen_house
        (good_ends ∷ [])
        (commit plain_env kitchen_house torn_ends issued_authority issued_disk
          (aware 0)
          revoke_it).1 in
    (x.0.ready ≡ false) ⊎ ((x.0.grants ≡ issued_state.grants) ⊎ (x.0.grants ≡ revoke_it.target))
commit-atomic_example =
    commit-atomic plain_env kitchen_house torn_ends revoke_it issued_authority issued_disk (aware 0)
      issued_state (good_ends ∷ []) settled_start

commit-durable_example :
    let x =
      reloads plain_env kitchen_house
        (good_ends ∷ [])
        (commit plain_env kitchen_house good_ends issued_authority issued_disk
          (aware 0)
          revoke_it).1 in
    (x.0.ready ≡ false) ⊎ (x.0.grants ≡ revoke_it.target)
commit-durable_example =
    commit-durable plain_env kitchen_house good_ends revoke_it issued_authority issued_disk
      (aware 0) (good_ends ∷ []) run_commit

-- The commit whose last save fails leaves a pending revocation, which a reload completes.
run_torn :
    let x =
      reloads plain_env kitchen_house
        (good_ends ∷ [])
        (commit plain_env kitchen_house torn_ends issued_authority issued_disk
          (aware 0)
          revoke_it).1 in
    x.0.grants ≡ revoke_it.target
unfolding commit reloads ensure_ready install bindings_valid normalize_time normalize event_of
    valid_timestamp is_rfc3339 is_transaction_id prepare_entry encode_entry repair_incomplete_tail
    repair_within valid_grants validate_record is_grant_id bounded_text is_zone_id valid_window
    timestamp_of is_digest save_state valid_state checkpoint_of checkpoint_digest target_digest
    pending_semantics pending_base append_prepared payload_of append_canonical checkpoint_matches
    verify_pending_base verify_witness find_newline recover rebuild_prepared_event inspect_prepared
    verify_clean_state
run_torn = refl
