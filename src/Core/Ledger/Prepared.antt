-- ===== src/Core/Ledger/Prepared.antt =====
-- src/threshold/core/ledger.py: the events that are prepared for a transaction, appended on a
-- condition and found again: `PreparedLedgerEvent`, `LedgerWitness` and the methods that take them.
-- `sha256` is the hexadecimal digest, `dumps` the canonical JSON of an entry in UTF-8, and `loads`
-- reads a line.
pub mod Receipts
pub mod Witness
pub mod Recovery
mod Examples
use threshold_node.Core.LedgerEntry.{
  Payload, Entry, is_digest, is_transaction_id, normalize, payload_of,
}
use threshold_node.Base.{
  ltb, eqb, if◌then◌else◌, length, take, drop, is_empty, Result, ok, err, ℕ, ◌+◌, String, Bool,
  true, false, not, ◌&&◌, ◌||◌, Option, none, some, List, [], ◌∷◌, ◌++◌, ◌==◌,
}
use threshold_node.Core.Timestamp.{Moment}
use threshold_node.Core.Ledger.{
  max_entry_bytes, newline, LedgerCheckpoint, LedgerError, os_error, value_error, WriteEnd,
  find_newline, repair_incomplete_tail, append_bytes, checkpoint_digest, checkpoint_of,
  checkpoint_matches, contents, Outcome, write_end,
}

pub record PreparedLedgerEvent : Type 0 where
  pub entry : Entry
  pub encoded : List ℕ
  pub checkpoint : LedgerCheckpoint

pub record LedgerWitness : Type 0 where
  pub transaction : String
  pub grant_revision : ℕ
  pub ledger_offset : ℕ
  pub receipt_sha256 : String

-- The comparison of two byte strings.
unfoldable pub bytes_eq : List ℕ → List ℕ → Bool
bytes_eq [] [] = true
bytes_eq [] (d ∷ s) = false
bytes_eq (c ∷ r) [] = false
bytes_eq (c ∷ r) (d ∷ s) = eqb c d && bytes_eq r s

module _ (sha256 : List ℕ → String) (dumps : Entry → List ℕ) (loads : List ℕ → Option Payload) where
  -- `_encode_entry`
  unfoldable pub encode_entry : Entry → Result LedgerError (List ℕ)
  encode_entry e =
      let encoded = dumps e ++ newline ∷ [] in
      if ltb max_entry_bytes (length encoded) then err value_error else ok encoded

  abbrev pub receipt_sha256_of : PreparedLedgerEvent → String
  receipt_sha256_of prepared = sha256 prepared.encoded

  bind_checkpoint : Entry → List ℕ → Option (List ℕ) → Option (List ℕ) → Outcome PreparedLedgerEvent
  bind_checkpoint entry encoded file none = (err os_error, some (contents file))
  bind_checkpoint entry encoded file (some bytes) = (
    ok (record { entry = entry; encoded = encoded; checkpoint = checkpoint_of sha256 bytes }),
    some bytes,
  )

  prepare_encoded :
      Bool → Entry → Option (List ℕ) → Result LedgerError (List ℕ) → Outcome PreparedLedgerEvent
  unfolding bind_checkpoint
  prepare_encoded safe entry file (err x) = (err x, file)
  prepare_encoded safe entry file (ok encoded) =
      if safe
      then bind_checkpoint entry encoded file (repair_incomplete_tail (contents file))
      else (err os_error, file)

  -- `prepare_event` with `_checkpoint`, for an event that was normalized.
  unfoldable pub prepare_entry : Bool → Entry → Option (List ℕ) → Outcome PreparedLedgerEvent
  unfolding prepare_encoded
  prepare_entry safe entry file = prepare_encoded safe entry file (encode_entry entry)

  append_checked :
      WriteEnd → PreparedLedgerEvent → Option (List ℕ) → Option (List ℕ) → Outcome (Unit {0})
  unfolding append_bytes write_end
  append_checked end prepared file none = (err os_error, some (contents file))
  append_checked end prepared file (some bytes) =
      if checkpoint_matches sha256 prepared.checkpoint bytes
      then write_end (append_bytes end bytes prepared.encoded)
      else (err os_error, some bytes)

  -- `append_prepared` from its lock on.
  unfoldable pub append_canonical :
      Bool → WriteEnd → PreparedLedgerEvent → Option (List ℕ) → Outcome (Unit {0})
  unfolding append_checked
  append_canonical safe end prepared file =
      if safe
      then append_checked end prepared file (repair_incomplete_tail (contents file))
      else (err os_error, file)

  -- `inspect_prepared`
  unfoldable pub inspect_prepared :
      Bool → PreparedLedgerEvent → Option (List ℕ) → Result LedgerError Bool
  unfolding bytes_eq
  inspect_prepared safe prepared none =
      if safe
        && eqb prepared.checkpoint.offset 0
        && (prepared.checkpoint.tail_sha256 == checkpoint_digest sha256 0 [])
      then ok false
      else err os_error
  inspect_prepared safe prepared (some bytes) =
      let size = length bytes in
      let offset = prepared.checkpoint.offset in
      let observed = take (length prepared.encoded) (drop offset bytes) in
      if not safe || ltb size offset
      then err os_error
      else if not (checkpoint_digest sha256 offset bytes == prepared.checkpoint.tail_sha256)
      then err os_error
      else if eqb size offset
      then ok false
      else if bytes_eq observed prepared.encoded
      then ok true
      else err os_error

  -- `has_history`
  unfoldable pub has_history : Bool → Option (List ℕ) → Result LedgerError Bool
  has_history safe none = if safe then ok false else err os_error
  has_history safe (some bytes) = if safe then ok (not (is_empty bytes)) else err os_error

  module _ (strip : String → String) (fromisoformat : List ℕ → Option Moment) where
    commits_to : LedgerWitness → Option (String × ℕ) → Bool
    commits_to w none = false
    commits_to w (some (transaction, revision)) =
        (transaction == w.transaction) && eqb revision w.grant_revision

    same_bytes : Result LedgerError (List ℕ) → List ℕ → Bool
    unfolding bytes_eq
    same_bytes (err x) encoded = false
    same_bytes (ok again) encoded = bytes_eq again encoded

    append_again :
        Bool
        → WriteEnd
        → PreparedLedgerEvent
        → Option (List ℕ)
        → Result LedgerError (List ℕ)
        → Outcome (Unit {0})
    unfolding bytes_eq
    append_again safe end prepared file (err x) = (err x, file)
    append_again safe end prepared file (ok again) =
        if bytes_eq again prepared.encoded
        then append_canonical safe end prepared file
        else (err os_error, file)

    -- `append_prepared`
    unfoldable pub append_prepared :
        Bool → WriteEnd → PreparedLedgerEvent → Option (List ℕ) → Outcome (Unit {0})
    unfolding append_again
    append_prepared safe end prepared file =
        elim (normalize strip fromisoformat "" true (payload_of prepared.entry)) [
          | err x ↦ (err value_error, file)
          | ok e ↦ append_again safe end prepared file (encode_entry e)
        ]

    rebuild_encoded :
        Entry
        → ℕ
        → String
        → String
        → Result LedgerError (List ℕ)
        → Result LedgerError PreparedLedgerEvent
    rebuild_encoded entry ledger_offset ledger_tail_sha256 receipt_sha256 (err x) = err x
    rebuild_encoded entry ledger_offset ledger_tail_sha256 receipt_sha256 (ok encoded) =
        if is_digest ledger_tail_sha256
          && is_digest receipt_sha256
          && (sha256 encoded == receipt_sha256)
        then ok (record {
          entry = entry;
          encoded = encoded;
          checkpoint = record { offset = ledger_offset; tail_sha256 = ledger_tail_sha256 };
        })
        else err os_error

    -- `rebuild_prepared_event`
    unfoldable pub rebuild_prepared_event :
        Payload → ℕ → String → String → Result LedgerError PreparedLedgerEvent
    unfolding rebuild_encoded
    rebuild_prepared_event entry ledger_offset ledger_tail_sha256 receipt_sha256 =
        elim (normalize strip fromisoformat "" true entry) [
          | err x ↦ err value_error
          | ok e ↦
              rebuild_encoded e ledger_offset ledger_tail_sha256 receipt_sha256 (encode_entry e)
        ]

    -- The parsed line against the witness.
    line_matches : LedgerWitness → List ℕ → Option Payload → Bool
    unfolding commits_to same_bytes
    line_matches w encoded none = false
    line_matches w encoded (some p) = elim (normalize strip fromisoformat "" true p) [
      | err x ↦ false
      | ok e ↦ commits_to w e.commit && same_bytes (encode_entry e) encoded
    ]

    line_commits : LedgerWitness → List ℕ → Option ℕ → Bool
    unfolding line_matches
    line_commits w found none = false
    line_commits w found (some i) =
        let encoded = take (i + 1) found in
        ltb i max_entry_bytes
        && (sha256 encoded == w.receipt_sha256)
        && line_matches w encoded (loads encoded)

    -- `verify_witness`; `false` is any of its errors.
    unfoldable pub verify_witness : Bool → LedgerWitness → Option (List ℕ) → Bool
    unfolding line_commits
    verify_witness safe w none = false
    verify_witness safe w (some bytes) =
        let found = take (max_entry_bytes + 1) (drop w.ledger_offset bytes) in
        safe
        && is_transaction_id w.transaction
        && ltb 0 w.grant_revision
        && is_digest w.receipt_sha256
        && line_commits w found (find_newline found)
