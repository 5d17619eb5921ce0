-- ===== src/Core/Ledger/Prepared/Witness.antt =====
-- Witnesses of core/ledger.py: a line that was verified stays verified.
use native.Mathlib.Decide.{dec_le}
use threshold_node.Base.{
  Option-cases, length, take, drop, ℕ, zero, suc, ◌+◌, ◌≤◌, String, ◌≡◌, refl, inl, inr, Bool, true,
  false, ◌&&◌, Option, some, List, [], ◌∷◌, ◌++◌, arith,
}
use threshold_node.Core.LedgerEntry.{Payload, Entry}
use threshold_node.Core.Timestamp.{Moment}
use threshold_node.Core.Ledger.{max_entry_bytes, find_newline}
use threshold_node.Core.Ledger.Prepared.{LedgerWitness, line_commits, verify_witness}

find-append :
    (n i : ℕ) (xs ys : List ℕ)
    → find_newline (take n xs) ≡ some i
    → (find_newline (take n (xs ++ ys)) ≡ some i)
      × (take (suc i) (take n (xs ++ ys)) ≡ take (suc i) (take n xs))
unfolding find_newline
find-append zero i xs ys h = cc
find-append (suc n) i [] ys h = cc
find-append (suc n) zero (c ∷ r) ys h = ground (arith, find-append n zero r ys)
find-append (suc n) (suc i) (c ∷ r) ys h = ground (arith, find-append n i r ys)

and_map : (a b c : Bool) → (b ≡ true → c ≡ true) → (a && b) ≡ true → (a && c) ≡ true
and_map a b c f h = ground arith

and_right : (a b : Bool) → (a && b) ≡ true → b ≡ true
and_right a b h = ground arith

drop-append_le : (k : ℕ) (xs ys : List ℕ) → k ≤ length xs → drop k (xs ++ ys) ≡ drop k xs ++ ys
drop-append_le zero xs ys h = refl
drop-append_le (suc k) [] ys h = absurd (omega arith)
drop-append_le (suc k) (x ∷ xs) ys h = drop-append_le k xs ys (omega arith)

drop_past : (k : ℕ) (xs : List ℕ) → length xs ≤ k → drop k xs ≡ []
drop_past zero [] h = refl
drop_past zero (x ∷ xs) h = absurd (omega arith)
drop_past (suc k) [] h = refl
drop_past (suc k) (x ∷ xs) h = drop_past k xs (omega arith)

module _ (sha256 : List ℕ → String) (dumps : Entry → List ℕ) (loads : List ℕ → Option Payload)
    (strip : String → String) (fromisoformat : List ℕ → Option Moment) where
  line_commits-nil :
      (w : LedgerWitness) (n : ℕ)
      → line_commits sha256 dumps loads strip fromisoformat w (take n []) (find_newline (take n []))
        ≡ false
  unfolding line_commits find_newline
  line_commits-nil w zero = refl
  line_commits-nil w (suc n) = refl

  line_commits-append :
      (w : LedgerWitness) (n : ℕ) (xs ys : List ℕ)
      → line_commits sha256 dumps loads strip fromisoformat w (take n xs) (find_newline (take n xs))
        ≡ true
      → line_commits sha256 dumps loads strip fromisoformat w
          (take n (xs ++ ys))
          (find_newline (take n (xs ++ ys)))
        ≡ true
  unfolding line_commits
  line_commits-append w n xs ys h = elim (Option-cases (find_newline (take n xs))) [
    | inl e ↦ absurd (ground arith)
    | inr (i, e) ↦
        let (found, same) = find-append n i xs ys e in
        let next : i + 1 ≡ suc i = omega arith in
        let line : take (i + 1) (take n (xs ++ ys)) ≡ take (i + 1) (take n xs) = rw next same in
        rw (found, line) (rw e at h)
  ]

  -- A witness that the ledger bears out stays borne out when the file grows.
  pub verify_witness-append :
      (w : LedgerWitness) (bytes more : List ℕ)
      → verify_witness sha256 dumps loads strip fromisoformat true w (some bytes) ≡ true
      → verify_witness sha256 dumps loads strip fromisoformat true w (some (bytes ++ more)) ≡ true
  unfolding verify_witness
  verify_witness-append w bytes more h = elim (dec_le w.ledger_offset (length bytes)) [
    | yes inside ↦ rw (drop-append_le w.ledger_offset bytes more inside) (
        and_map _ _ _
          (line_commits-append w (max_entry_bytes + 1) (drop w.ledger_offset bytes) more) h)
    | no outside ↦
        let gone : drop w.ledger_offset bytes ≡ [] =
          drop_past w.ledger_offset bytes (omega arith) in
        let found = take (max_entry_bytes + 1) (drop w.ledger_offset bytes) in
        let last : line_commits sha256 dumps loads strip fromisoformat w found (find_newline found)
            ≡ true =
          and_right _ _ h in
        cc (gone, last, line_commits-nil w (max_entry_bytes + 1))
  ]
