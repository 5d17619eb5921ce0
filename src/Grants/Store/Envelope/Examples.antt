-- ===== src/Grants/Store/Envelope/Examples.antt =====
-- Runs of grants/store.py on whole states, and its theorems at concrete inputs. The digest of a
-- snapshot is its first id; every character from the space on is printable.
use threshold_node.Base.{
  leb, Dict, lookup, ℕ, String, ◌≡◌, refl, Bool, true, false, Option, none, some, List, [], ◌∷◌,
}
use threshold_node.Core.Types.{read_layout, cmd_navigate, active, Grant}
use threshold_node.Core.Timestamp.{Moment, aware, is_rfc3339}
use threshold_node.Core.LedgerEntry.{Entry, is_digest, is_transaction_id}
use threshold_node.Grants.Record.{
  is_grant_id, is_zone_id, bounded_text, timestamp_of, valid_window, validate_record,
  distinct_records, valid_grants,
}
use threshold_node.Grants.Record.Distinct.{valid_grants-DistinctCredentials}
use threshold_node.Grants.Manager.Issue.{DistinctCredentials}
use threshold_node.Grants.Store.{GrantStoreState}
use threshold_node.Grants.Store.Envelope.{
  saved, rolled_back, left_live, empty_state, valid_state, save_state,
}
use threshold_node.Grants.Store.Envelope.Saves.{disk_after, disk_after-DistinctCredentials}

abbrev first_id : List Grant → String
first_id [] = ""
first_id (g ∷ rest) = g.id

abbrev guest : Grant
guest = record {
  id = "g-guest";
  name = "Guest";
  kind = "humanoid";
  scopes = read_layout ∷ cmd_navigate ∷ [];
  zones = "kitchen" ∷ [];
  window = "standing";
  expires = "revocable";
  status = active;
  issued = "2026-07-15T08:00:00Z";
  credential_digest = "00000000000000000000000000000000000000000000000000000000000000aa";
}

abbrev keeper : Grant
keeper = record guest {
  id = "g-keeper";
  credential_digest = "00000000000000000000000000000000000000000000000000000000000000bb";
}

abbrev from_space : ℕ → Bool
from_space c = leb 32 c

abbrev at_zero : List ℕ → Option Moment
at_zero v = some (aware 0)

abbrev both : Dict Grant
both = ("g-guest", guest) ∷ ("g-keeper", keeper) ∷ []

run_valid_grants : valid_grants from_space at_zero both ≡ true
unfolding valid_grants validate_record distinct_records is_grant_id is_zone_id bounded_text
    timestamp_of valid_window is_digest is_rfc3339
run_valid_grants = refl

valid_grants-DistinctCredentials_example :
    ((k : String) (g : Grant) → lookup k both ≡ some g → g.id ≡ k) × DistinctCredentials both
valid_grants-DistinctCredentials_example =
    valid_grants-DistinctCredentials from_space at_zero both run_valid_grants

abbrev no_digest : Entry → String
no_digest e = ""

run_save :
    save_state from_space at_zero first_id no_digest rolled_back empty_state none ≡ (false, none)
unfolding save_state valid_state valid_grants
run_save = refl

abbrev with_guests : GrantStoreState
with_guests = record {
  revision = 1;
  grants = both;
  ledger_witness = some (record {
    transaction = "tx-0123456789abcdef0123456789abcdef";
    revision = 1;
    ledger_offset = 0;
    receipt_sha256 = "00000000000000000000000000000000000000000000000000000000000000aa";
    target_sha256 = "00000000000000000000000000000000000000000000000000000000000000bb";
  });
  pending = none;
}

run_saves :
    disk_after from_space at_zero first_id no_digest
      ((saved, empty_state) ∷ (left_live, with_guests) ∷ (rolled_back, empty_state) ∷ [])
      none
    ≡ some with_guests
unfolding disk_after save_state valid_state valid_grants validate_record distinct_records
    is_grant_id is_zone_id bounded_text timestamp_of valid_window is_digest is_rfc3339
    is_transaction_id
run_saves = refl

disk_after-DistinctCredentials_example :
    (valid_state from_space at_zero first_id no_digest with_guests ≡ true)
    × ((k : String) (g : Grant) → lookup k both ≡ some g → g.id ≡ k)
    × DistinctCredentials both
disk_after-DistinctCredentials_example =
    disk_after-DistinctCredentials from_space at_zero first_id no_digest
      ((saved, empty_state) ∷ (left_live, with_guests) ∷ (rolled_back, empty_state) ∷ [])
      with_guests run_saves
