-- ===== src/Api/Issuing/Examples.antt =====
-- A grant issued by api/server.py on a node without files.
use threshold_node.Api.Issuing.Checks.{IsSound}
use threshold_node.Api.Issuing.Requires.{IssuedUnder, post_grant-requires}
use threshold_node.Base.{ok, ℕ, String, ◌≡◌, refl, none, [], ◌∷◌}
use threshold_node.Hardware.Display.{utc, sanitize_agent, on_deny}
use threshold_node.Grants.Store.Envelope.{valid_state, save_state}
use threshold_node.Grants.Store.{target_digest, pending_semantics, base_grants, pending_base}
use threshold_node.Grants.Record.{
  is_grant_id, is_zone_id, bounded_text, timestamp_of, valid_window, validate_record,
  distinct_records, valid_grants, sorted_records,
}
use threshold_node.Grants.Manager.{normalize_time, parse_window, credential_in, check_zones, issue}
use threshold_node.Grants.Authority.Mutations.{exclusive, issue_grant}
use threshold_node.Grants.Authority.Commit.{commit}
use threshold_node.Grants.Authority.Changes.{digest_registered}
use threshold_node.Grants.Authority.{
  zones_bound, bindings_valid, verify_clean_state, install, ensure_ready,
}
use threshold_node.Core.Timestamp.{aware, is_rfc3339, replace_z, split_first}
use threshold_node.Core.LedgerEntry.{
  is_hex_run, is_digest, is_transaction_id, event_of, valid_timestamp, normalize, payload_of,
}
use threshold_node.Core.Ledger.Prepared.{
  bytes_eq, encode_entry, prepare_entry, append_canonical, has_history, append_prepared,
  verify_witness,
}
use threshold_node.Core.Ledger.{
  rfind_newline, find_newline, newline_at, repair_within, repair_incomplete_tail, append_bytes,
  checkpoint_digest, checkpoint_of, checkpoint_matches,
}
use threshold_node.Core.Auth.{is_valid_bearer_token}
use threshold_node.Api.Node.{Node, Fate, Reply, with_clock, display_deny}
use threshold_node.Api.Issuing.{
  GrantIssueRequest, PublicGrant, public_grant, free_id, distinct_scope, check_request, new_grant,
  issue_reply, issue_as, issue_ready, issue_under_lock, post_grant,
}
use threshold_node.Api.Samples.{demo_server, demo_node, good_fate}
use threshold_node.Grants.Authority.Samples.{first_id, good_ends}
use threshold_node.Grants.Platform.{Disk}
use threshold_node.Core.Types.{read_layout, active}

abbrev empty_disk : Disk
empty_disk = record { store = none; ledger = none }

abbrev empty_node : Node ℕ
empty_node = record demo_node { disk = empty_disk }

abbrev guest_request : GrantIssueRequest
guest_request = record {
  name = "Visitor";
  kind = "human";
  scopes = read_layout ∷ [];
  zones = "kitchen" ∷ [];
  window = "standing";
  expires = "revocable";
}

abbrev guest_fate : Fate
guest_fate = record good_fate { attempt = record { ends = good_ends; transaction = first_id } }

abbrev guest_token : String
guest_token = "0123456789abcdef0123456789abcdef"

abbrev guest_reply : Reply ℕ PublicGrant
guest_reply =
    post_grant demo_server good_ends guest_fate guest_request guest_token ("g-visitor" ∷ [])
      (aware 0) empty_node

abbrev guest_grant : PublicGrant
guest_grant = record {
  id = "g-visitor";
  name = "Visitor";
  kind = "human";
  scopes = read_layout ∷ [];
  zones = "kitchen" ∷ [];
  window = "standing";
  expires = "revocable";
  status = active;
  issued = "2026-07-15T10:00:00Z";
}

run_issue : guest_reply.0 ≡ ok guest_grant
unfolding post_grant check_request is_valid_bearer_token with_clock normalize_time ensure_ready
    install has_history verify_clean_state bindings_valid credential_in free_id issue_grant
    exclusive digest_registered issue check_zones parse_window distinct_scope issue_as
    issue_under_lock issue_ready issue_reply new_grant public_grant display_deny append_canonical
    append_prepared bytes_eq encode_entry prepare_entry verify_witness append_bytes
    checkpoint_digest checkpoint_matches checkpoint_of find_newline newline_at
    repair_incomplete_tail repair_within rfind_newline event_of is_digest is_hex_run
    is_transaction_id normalize payload_of valid_timestamp is_rfc3339 replace_z split_first commit
    zones_bound bounded_text distinct_records is_grant_id is_zone_id sorted_records timestamp_of
    valid_grants valid_window validate_record save_state valid_state base_grants pending_base
    pending_semantics target_digest on_deny sanitize_agent utc
run_issue = refl

post_grant-requires_example :
    IsSound demo_server guest_request guest_token
    × ((t : ℕ) × ((aware 0 ≡ aware t)
          × IssuedUnder demo_server good_ends guest_fate guest_request guest_token
              ("g-visitor" ∷ [])
              empty_node
              t
              guest_grant))
post_grant-requires_example =
    post_grant-requires demo_server good_ends guest_fate guest_request guest_token
      ("g-visitor" ∷ []) (aware 0) empty_node guest_grant run_issue
