-- ===== src/Core/Ledger/Prepared/Receipts.antt =====
-- Receipts of core/ledger.py: what was appended is found again, and what stood stays.
use threshold_node.Base.{
  Option-cases, length, take, drop, length-append, drop-append, take-append, ok, Result-cases, ℕ,
  zero, suc, ◌+◌, ◌-◌, ◌≤◌, min, String, ◌≡◌, refl, sym, ap, ◌∙◌, ◌≢◌, inl, inr, Bool, true, false,
  Option, some, List, [], ◌∷◌, ◌++◌, append_assoc, arith, eq_iff, eq_refl,
}
use threshold_node.Core.Ledger.{
  checkpoint_tail_bytes, WriteEnd, written, failed, repair_incomplete_tail, append_bytes,
  big_endian, checkpoint_digest, checkpoint_matches, contents, write_end,
}
use threshold_node.Core.Ledger.Prepared.{
  PreparedLedgerEvent, bytes_eq, append_canonical, inspect_prepared, append_prepared,
}
use threshold_node.Core.LedgerEntry.{Payload, Entry, normalize, payload_of}
use threshold_node.Core.Ledger.Repair.{complete_lines, repaired_complete}
use threshold_node.Core.Timestamp.{Moment}

-- Bytes before the end of `xs` are those of `xs ++ ys`.
take-drop-append :
    (k n : ℕ) (xs ys : List ℕ) → k + n ≤ length xs → take n (drop k (xs ++ ys)) ≡ take n (drop k xs)
take-drop-append zero zero xs ys h = refl
take-drop-append zero (suc n) [] ys h = absurd (omega arith)
take-drop-append zero (suc n) (x ∷ xs) ys h =
    ap (λ t. x ∷ t) (take-drop-append zero n xs ys (omega arith))
take-drop-append (suc k) zero [] ys h = absurd (omega arith)
take-drop-append (suc k) (suc n) [] ys h = absurd (omega arith)
take-drop-append (suc k) n (x ∷ xs) ys h = take-drop-append k n xs ys (omega arith)

take-all : (xs : List ℕ) → take (length xs) xs ≡ xs
take-all [] = refl
take-all (x ∷ xs) = ap (λ t. x ∷ t) (take-all xs)

length_pos {ℓ} : {A : Type ℓ} (xs : List A) → xs ≢ [] → 1 ≤ length xs
length_pos [] h = absurd (h refl)
length_pos (x ∷ xs) h = omega arith

pub bytes_eq_refl : (xs : List ℕ) → bytes_eq xs xs ≡ true
unfolding bytes_eq
bytes_eq_refl [] = refl
bytes_eq_refl (x ∷ xs) = ground (arith, bytes_eq_refl xs)

module _ (sha256 : List ℕ → String) where
  -- The digest of a checkpoint does not change when the file grows.
  checkpoint_digest-append :
      (bytes more : List ℕ) (offset : ℕ)
      → offset ≤ length bytes
      → checkpoint_digest sha256 offset (bytes ++ more) ≡ checkpoint_digest sha256 offset bytes
  unfolding checkpoint_digest
  checkpoint_digest-append bytes more offset h =
      let n = min offset checkpoint_tail_bytes in
      ap (λ t. sha256 (big_endian 8 offset ++ t))
        (take-drop-append (offset - n) n bytes more (omega arith))

module _ (sha256 : List ℕ → String) (dumps : Entry → List ℕ) (loads : List ℕ → Option Payload) where
  -- What a successful conditional append has found and left.
  pub record Appended (prepared : PreparedLedgerEvent) (safe : Bool) (file after : Option (List ℕ))
      : Type 0 where
    pub base : List ℕ
    pub is_safe : safe ≡ true
    pub repaired : repair_incomplete_tail (contents file) ≡ some base
    pub at_offset : length base ≡ prepared.checkpoint.offset
    pub same_tail : checkpoint_digest sha256 (length base) base ≡ prepared.checkpoint.tail_sha256
    pub left : after ≡ some (base ++ prepared.encoded)

  append_left :
      (end : WriteEnd) (b : List ℕ) (prepared : PreparedLedgerEvent) (after : Option (List ℕ))
      → write_end (append_bytes end b prepared.encoded) ≡ (ok tt, after)
      → after ≡ some (b ++ prepared.encoded)
  unfolding write_end append_bytes
  append_left written b prepared after h = ground arith
  append_left (failed k true) b prepared after h = absurd (ground arith)
  append_left (failed k false) b prepared after h = absurd (ground arith)

  append_canonical-Appended :
      (prepared : PreparedLedgerEvent) (safe : Bool) (end : WriteEnd) (file after : Option (List ℕ))
      → append_canonical sha256 dumps loads safe end prepared file ≡ (ok tt, after)
      → Appended prepared safe file after
  unfolding append_canonical checkpoint_matches
  append_canonical-Appended prepared safe end file after h =
      elim (Option-cases (repair_incomplete_tail (contents file))) [
        | inl e ↦ absurd (ground arith)
        | inr (b, e) ↦ record {
          base = b;
          is_safe = ground arith;
          repaired = e;
          at_offset = ground arith;
          same_tail = ground (
            arith,
            eq_iff (checkpoint_digest sha256 (length b) b) prepared.checkpoint.tail_sha256,
          );
          left = append_left end b prepared after (ground arith);
        }
      ]

  pub inspect_present :
      (prepared : PreparedLedgerEvent) (base more : List ℕ)
      → length base ≡ prepared.checkpoint.offset
      → checkpoint_digest sha256 (length base) base ≡ prepared.checkpoint.tail_sha256
      → prepared.encoded ≢ []
      → inspect_prepared sha256 dumps loads true prepared
          (some (base ++ (prepared.encoded ++ more)))
        ≡ ok true
  unfolding inspect_prepared
  inspect_present prepared base more at same filled =
      let encoded = prepared.encoded in
      let bytes = base ++ (encoded ++ more) in
      let offset = prepared.checkpoint.offset in
      let digest : checkpoint_digest sha256 offset bytes ≡ prepared.checkpoint.tail_sha256 =
        rw (← at) (
          checkpoint_digest-append sha256 base (encoded ++ more) (length base) (omega arith)
          ∙ same) in
      let observed : take (length encoded) (drop offset bytes) ≡ encoded =
        rw (← at, drop-append base (encoded ++ more)) (take-append encoded more) in
      let long : length bytes ≡ length base + (length encoded + length more) =
        length-append base (encoded ++ more)
        ∙ ap (λ n. length base + n) (length-append encoded more) in
      let some_bytes : 1 ≤ length encoded = length_pos encoded filled in
      rw (digest, eq_refl, observed, bytes_eq_refl encoded) (ground arith)

  module _ (strip : String → String) (fromisoformat : List ℕ → Option Moment) where
    append_prepared-Appended :
        (prepared : PreparedLedgerEvent) (safe : Bool) (end : WriteEnd)
        (file after : Option (List ℕ))
        → append_prepared sha256 dumps loads strip fromisoformat safe end prepared file
          ≡ (ok tt, after)
        → Appended prepared safe file after
    unfolding append_prepared
    append_prepared-Appended prepared safe end file after h =
        elim (Result-cases (normalize strip fromisoformat "" true (payload_of prepared.entry))) [
          | inl (e, n) ↦ append_canonical-Appended prepared safe end file after (ground arith)
          | inr (x, n) ↦ absurd (ground arith)
        ]

    -- When a conditional append of at least one byte returns, the completed lines of the file stand
    -- as they were, the prepared bytes follow them and nothing else does, and from then on the
    -- receipt is found present at its checkpoint, whatever further bytes follow it.
    pub append_prepared-inspect :
        (prepared : PreparedLedgerEvent) (safe : Bool) (end : WriteEnd)
        (file after : Option (List ℕ)) (more : List ℕ)
        → prepared.encoded ≢ []
        → append_prepared sha256 dumps loads strip fromisoformat safe end prepared file
          ≡ (ok tt, after)
        → (after ≡ some (complete_lines (contents file) ++ prepared.encoded))
          × (inspect_prepared sha256 dumps loads true prepared (some (contents after ++ more))
              ≡ ok true)
    append_prepared-inspect prepared safe end file after more filled h =
        let a = append_prepared-Appended prepared safe end file after h in
        (
          a.left
              ∙ ap (λ b. some (b ++ prepared.encoded))
                  (sym (repaired_complete (contents file) a.base a.repaired)),
          rw (a.left, append_assoc a.base prepared.encoded more)
              (inspect_present prepared a.base more a.at_offset a.same_tail filled),
        )
