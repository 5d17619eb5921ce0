-- ===== src/Core/Ledger/Prepared/Examples.antt =====
-- Runs of core/ledger.py, and its theorems at concrete inputs. The digest tells the parity of the
-- bytes' sum, and every line parses as the one event that is written.
use threshold_node.Core.Ledger.Prepared.Witness.{verify_witness-append}
use threshold_node.Base.{
  eqb, if◌then◌else◌, codes, ok, err, ℕ, ◌+◌, ◌%◌, String, ◌≡◌, refl, Bool, true, false, Option,
  none, some, List, [], ◌∷◌, ◌++◌,
}
use threshold_node.Core.Ledger.Prepared.{
  PreparedLedgerEvent, LedgerWitness, encode_entry, prepare_entry, append_canonical,
  inspect_prepared, append_prepared, rebuild_prepared_event, verify_witness,
}
use threshold_node.Core.Ledger.{
  newline, os_error, written, failed, find_newline, repair_within, repair_incomplete_tail,
  checkpoint_digest, checkpoint_of, checkpoint_matches,
}
use threshold_node.Core.Ledger.Prepared.Recovery.{prepare-rebuild, prepare-append}
use threshold_node.Core.LedgerEntry.{
  text, number, Payload, Entry, is_digest, is_transaction_id, event_of, valid_timestamp, normalize,
  payload_of,
}
use threshold_node.Core.Timestamp.{aware, is_rfc3339}
use threshold_node.Core.Types.{estop_event}
use threshold_node.Core.Ledger.Repair.{complete_lines}
use threshold_node.Core.Ledger.Prepared.Receipts.{append_prepared-inspect}

abbrev sum : List ℕ → ℕ
sum [] = 0
sum (c ∷ r) = c + sum r

abbrev zeros_aa : String
zeros_aa = "00000000000000000000000000000000000000000000000000000000000000aa"

abbrev zeros_bb : String
zeros_bb = "00000000000000000000000000000000000000000000000000000000000000bb"

abbrev digest : List ℕ → String
digest bytes = if eqb (sum bytes % 2) 0 then zeros_aa else zeros_bb

abbrev stop_entry : Entry
stop_entry = record {
  ts = "2026-07-15T10:00:00Z";
  type = estop_event;
  agent = "system";
  detail = "all";
  tier = none;
  commit = some ("tx-0123456789abcdef0123456789abcdef", 4);
}

abbrev dumped : Entry → List ℕ
dumped e = codes e.ts ++ codes e.detail

abbrev parsed : List ℕ → Option Payload
parsed line = some (record {
  ts = some (text "2026-07-15T10:00:00Z");
  type = some (text "ESTOP");
  agent = some (text "system");
  detail = some (text "all");
  tier = none;
  transaction = some (text "tx-0123456789abcdef0123456789abcdef");
  grant_revision = some (number 4);
})

abbrev first_line : List ℕ
first_line = b'o' ∷ b'l' ∷ b'd' ∷ newline ∷ []

abbrev torn : List ℕ
torn = first_line ++ (b'n' ∷ b'e' ∷ [])

abbrev line : List ℕ
line = dumped stop_entry ++ newline ∷ []

abbrev prepared : PreparedLedgerEvent
prepared = record {
  entry = stop_entry;
  encoded = line;
  checkpoint = record { offset = 4; tail_sha256 = digest (4 ∷ first_line) };
}

run_append :
    append_prepared digest dumped parsed
      (λ t. t)
      (λ v. some (aware 0))
      true
      written
      prepared
      (some torn)
    ≡ (ok tt, some (first_line ++ line))
unfolding append_prepared append_canonical normalize encode_entry event_of valid_timestamp
    is_rfc3339 is_transaction_id payload_of repair_incomplete_tail repair_within checkpoint_matches
    checkpoint_digest
run_append = refl

run_append_failed :
    append_prepared digest dumped parsed
      (λ t. t)
      (λ v. some (aware 0))
      true
      (failed 3 true)
      prepared
      (some torn)
    ≡ (err os_error, some first_line)
unfolding append_prepared append_canonical normalize encode_entry event_of valid_timestamp
    is_rfc3339 is_transaction_id payload_of repair_incomplete_tail repair_within checkpoint_matches
    checkpoint_digest
run_append_failed = refl

append_prepared-inspect_example :
    (some (first_line ++ line) ≡ some (complete_lines torn ++ line))
    × (inspect_prepared digest dumped parsed true prepared
          (some ((first_line ++ line) ++ first_line))
        ≡ ok true)
append_prepared-inspect_example =
    append_prepared-inspect digest dumped parsed (λ t. t) (λ v. some (aware 0)) prepared true
      written (some torn) (some (first_line ++ line)) first_line (λ e. absurd (cc e)) run_append

abbrev stop_witness : LedgerWitness
stop_witness = record {
  transaction = "tx-0123456789abcdef0123456789abcdef";
  grant_revision = 4;
  ledger_offset = 4;
  receipt_sha256 = digest line;
}

run_verify :
    verify_witness digest dumped parsed
      (λ t. t)
      (λ v. some (aware 0))
      true
      stop_witness
      (some (first_line ++ line))
    ≡ true
unfolding verify_witness normalize find_newline is_transaction_id is_digest encode_entry event_of
    valid_timestamp is_rfc3339
run_verify = refl

verify_witness-append_example :
    verify_witness digest dumped parsed
      (λ t. t)
      (λ v. some (aware 0))
      true
      stop_witness
      (some ((first_line ++ line) ++ first_line))
    ≡ true
verify_witness-append_example =
    verify_witness-append digest dumped parsed (λ t. t) (λ v. some (aware 0)) stop_witness
      (first_line ++ line) first_line run_verify

digest_shape : (b : Bool) → is_digest (if b then zeros_aa else zeros_bb) ≡ true
unfolding is_digest
digest_shape true = refl
digest_shape false = refl

abbrev stop_payload : Payload
stop_payload = record {
  ts = some (text "2026-07-15T10:00:00Z");
  type = some (text "ESTOP");
  agent = some (text "system");
  detail = some (text "all");
  tier = none;
  transaction = some (text "tx-0123456789abcdef0123456789abcdef");
  grant_revision = some (number 4);
}

run_normalize : normalize (λ t. t) (λ v. some (aware 0)) "" false stop_payload ≡ ok stop_entry
unfolding normalize event_of valid_timestamp is_rfc3339 is_transaction_id
run_normalize = refl

run_prepare :
    prepare_entry digest dumped parsed true stop_entry (some torn) ≡ (ok prepared, some first_line)
unfolding prepare_entry encode_entry checkpoint_of checkpoint_digest repair_incomplete_tail
    repair_within
run_prepare = refl

prepare-rebuild_example :
    rebuild_prepared_event digest dumped parsed
      (λ t. t)
      (λ v. some (aware 0))
      (payload_of stop_entry)
      4
      (digest (0 ∷ 0 ∷ 0 ∷ 0 ∷ 0 ∷ 0 ∷ 0 ∷ 4 ∷ first_line))
      (digest line)
    ≡ ok prepared
prepare-rebuild_example =
    prepare-rebuild digest dumped parsed (λ t. t) (λ v. some (aware 0)) (λ e. refl)
      (λ bytes. digest_shape (eqb (sum bytes % 2) 0)) "" false true stop_payload stop_entry
      (some torn) (some first_line) prepared run_normalize run_prepare

prepare-append_example :
    append_prepared digest dumped parsed
      (λ t. t)
      (λ v. some (aware 0))
      true
      written
      prepared
      (some first_line)
    ≡ (ok tt, some (first_line ++ line))
prepare-append_example =
    prepare-append digest dumped parsed (λ t. t) (λ v. some (aware 0)) (λ e. refl) "" false true
      stop_payload stop_entry (some torn) (some first_line) prepared run_normalize run_prepare
