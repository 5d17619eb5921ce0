-- ===== src/Core/Ledger/Prepared/Recovery.antt =====
-- What restart recovery builds again: core/ledger.py's prepared events.
use threshold_node.Core.Ledger.Prepared.Receipts.{bytes_eq_refl}
use threshold_node.Core.Ledger.Prepared.{
  PreparedLedgerEvent, encode_entry, prepare_entry, append_canonical, append_prepared,
  rebuild_prepared_event,
}
use threshold_node.Core.Ledger.{
  max_entry_bytes, written, repair_incomplete_tail, append_bytes, checkpoint_digest, checkpoint_of,
  checkpoint_matches, contents, write_end,
}
use threshold_node.Base.{
  Option-cases, length, ok, Result-cases, ℕ, String, ◌≡◌, refl, sym, ap, ◌∙◌, inl, inr, Bool, true,
  Option, some, List, [], ◌∷◌, ◌++◌, arith, eq_refl,
}
use threshold_node.Core.Types.{EventType, event_value}
use threshold_node.Core.Timestamp.{Moment}
use threshold_node.Core.LedgerEntry.{Payload, Entry, is_digest, normalize, payload_of}
use threshold_node.Core.LedgerEntry.Normal.{normalize_again}
use threshold_node.Core.Ledger.Repair.{complete_lines, repair_succeeds, repaired_complete}

complete-again : (xs : List ℕ) → complete_lines (complete_lines xs) ≡ complete_lines xs
unfolding complete_lines
complete-again [] = refl
complete-again (c ∷ r) = ground (arith, complete-again r)

repair_again : (xs : List ℕ) → repair_incomplete_tail (complete_lines xs) ≡ some (complete_lines xs)
unfolding repair_incomplete_tail
repair_again xs =
    repair_succeeds max_entry_bytes (complete_lines xs) (rw (complete-again xs) (omega arith))
    ∙ ap some (complete-again xs)

module _ (sha256 : List ℕ → String) (dumps : Entry → List ℕ) (loads : List ℕ → Option Payload) where
  -- What `prepare_event` has found and bound.
  record IsPrepared (e : Entry) (file after : Option (List ℕ)) (prepared : PreparedLedgerEvent)
      : Type 0 where
    entry : prepared.entry ≡ e
    encoded : encode_entry sha256 dumps loads e ≡ ok prepared.encoded
    checkpoint : prepared.checkpoint ≡ checkpoint_of sha256 (complete_lines (contents file))
    left : after ≡ some (complete_lines (contents file))

  prepare-IsPrepared :
      (safe : Bool) (e : Entry) (file after : Option (List ℕ)) (prepared : PreparedLedgerEvent)
      → prepare_entry sha256 dumps loads safe e file ≡ (ok prepared, after)
      → IsPrepared e file after prepared
  unfolding prepare_entry
  prepare-IsPrepared safe e file after prepared h =
      elim (Result-cases (encode_entry sha256 dumps loads e)) [
        | inl (encoded, n) ↦ elim (Option-cases (repair_incomplete_tail (contents file))) [
          | inl gone ↦ absurd (ground arith)
          | inr (b, r) ↦
              let same = repaired_complete (contents file) b r in
              record {
                entry = ground arith;
                encoded = ground arith;
                checkpoint = rw same (ground arith);
                left = rw same (ground arith);
              }
        ]
        | inr (x, n) ↦ absurd (ground arith)
      ]

  module _ (strip : String → String) (fromisoformat : List ℕ → Option Moment)
      (strip-event : (e : EventType) → strip (event_value e) ≡ event_value e) where
    -- The entry of a prepared event is its own strict normal form.
    normal_entry :
        (now : String) (strict : Bool) (p : Payload) (e : Entry) (prepared : PreparedLedgerEvent)
        → normalize strip fromisoformat now strict p ≡ ok e
        → prepared.entry ≡ e
        → normalize strip fromisoformat "" true (payload_of prepared.entry) ≡ ok e
    normal_entry now strict p e prepared normal same =
        ap (λ x. normalize strip fromisoformat "" true (payload_of x)) same
        ∙ normalize_again strip fromisoformat strip-event now "" strict p e normal

    rebuild_normal :
        (q : Payload) (e : Entry) (encoded : List ℕ) (offset : ℕ) (tail : String)
        → normalize strip fromisoformat "" true q ≡ ok e
        → encode_entry sha256 dumps loads e ≡ ok encoded
        → is_digest tail ≡ true
        → is_digest (sha256 encoded) ≡ true
        → rebuild_prepared_event sha256 dumps loads strip fromisoformat q offset tail
            (sha256 encoded)
          ≡ ok (record {
            entry = e;
            encoded = encoded;
            checkpoint = record { offset = offset; tail_sha256 = tail };
          })
    unfolding rebuild_prepared_event
    rebuild_normal q e encoded offset tail normal line hex_tail hex_line =
        ground (arith, eq_refl (sha256 encoded))

    append_normal :
        (prepared : PreparedLedgerEvent) (e : Entry) (bytes : List ℕ)
        → normalize strip fromisoformat "" true (payload_of prepared.entry) ≡ ok e
        → encode_entry sha256 dumps loads e ≡ ok prepared.encoded
        → prepared.checkpoint ≡ checkpoint_of sha256 bytes
        → repair_incomplete_tail bytes ≡ some bytes
        → append_prepared sha256 dumps loads strip fromisoformat true written prepared (some bytes)
          ≡ (ok tt, some (bytes ++ prepared.encoded))
    unfolding append_prepared append_canonical checkpoint_matches checkpoint_of append_bytes
        write_end
    append_normal prepared e bytes normal line at whole = ground (
      arith,
      eq_refl (checkpoint_digest sha256 (length bytes) bytes),
      bytes_eq_refl prepared.encoded,
    )

    -- With a digest that gives 64 hexadecimal digits and a `strip` that keeps the names of events,
    -- what recovery rebuilds from the stored fields of a prepared event, which was normalized and
    -- whose entry was bound to a ledger, is the prepared event itself.
    pub prepare-rebuild :
        (hex_digest : (bytes : List ℕ) → is_digest (sha256 bytes) ≡ true) (now : String)
        (strict safe : Bool) (p : Payload) (e : Entry) (file after : Option (List ℕ))
        (prepared : PreparedLedgerEvent)
        → normalize strip fromisoformat now strict p ≡ ok e
        → prepare_entry sha256 dumps loads safe e file ≡ (ok prepared, after)
        → rebuild_prepared_event sha256 dumps loads strip fromisoformat
            (payload_of prepared.entry)
            prepared.checkpoint.offset
            prepared.checkpoint.tail_sha256
            (sha256 prepared.encoded)
          ≡ ok prepared
    unfolding checkpoint_of checkpoint_digest
    prepare-rebuild hex_digest now strict safe p e file after prepared normal h =
        let i = prepare-IsPrepared safe e file after prepared h in
        let hex_tail : is_digest prepared.checkpoint.tail_sha256 ≡ true =
          rw i.checkpoint (hex_digest _) in
        rebuild_normal (payload_of prepared.entry) e prepared.encoded prepared.checkpoint.offset
          prepared.checkpoint.tail_sha256 (normal_entry now strict p e prepared normal i.entry)
          i.encoded hex_tail (hex_digest prepared.encoded)
        ∙ ap (λ x. ok (record prepared { entry = x })) (sym i.entry)

    -- With a `strip` that keeps the names of events, an event that was normalized and prepared can be
    -- appended to the ledger that it was bound to: on a private file and with a write that succeeds,
    -- the append returns and leaves the bound bytes with the event's bytes after them.
    pub prepare-append :
        (now : String) (strict safe : Bool) (p : Payload) (e : Entry) (file after : Option (List ℕ))
        (prepared : PreparedLedgerEvent)
        → normalize strip fromisoformat now strict p ≡ ok e
        → prepare_entry sha256 dumps loads safe e file ≡ (ok prepared, after)
        → append_prepared sha256 dumps loads strip fromisoformat true written prepared after
          ≡ (ok tt, some (contents after ++ prepared.encoded))
    unfolding append_canonical checkpoint_matches checkpoint_of append_bytes write_end
    prepare-append now strict safe p e file after prepared normal h =
        let i = prepare-IsPrepared safe e file after prepared h in
        let bytes = complete_lines (contents file) in
        let there : after ≡ some bytes = i.left in
        rw there (
          append_normal prepared e bytes (normal_entry now strict p e prepared normal i.entry)
            i.encoded i.checkpoint (repair_again (contents file)))
