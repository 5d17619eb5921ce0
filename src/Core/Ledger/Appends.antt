-- ===== src/Core/Ledger/Appends.antt =====
-- What `append` of core/ledger.py leaves, however its write ends.
use threshold_node.Base.{
  eqb, Bool-cases, take, is_empty, Result, ok, ℕ, ◌≡◌, refl, sym, ap, ◌∙◌, inl, inr, Bool, true,
  false, Option, none, some, List, [], ◌∷◌, ◌++◌, append-nil, arith,
}
use threshold_node.Core.Ledger.{
  newline, LedgerError, WriteEnd, written, failed, repair_incomplete_tail, append_bytes, contents,
  write_end, append_after, append_encoded,
}
use threshold_node.Core.Ledger.Repair.{complete_lines, repaired_complete}

complete_prefix : (xs : List ℕ) → (rest : List ℕ) × (xs ≡ complete_lines xs ++ rest)
unfolding complete_lines
complete_prefix [] = ([], refl)
complete_prefix (c ∷ r) = elim (Bool-cases (is_empty (complete_lines r))) [
  | inl e ↦ elim (Bool-cases (eqb c newline)) [
    | inl n ↦ (r, rw (e, n) refl)
    | inr n ↦ (c ∷ r, rw (e, n) refl)
  ]
  | inr e ↦ let (rest, same) = complete_prefix r in (rest, rw e (ap (λ t. c ∷ t) same))
]

abbrev Keeps : List ℕ → Option (List ℕ) → Result LedgerError (Unit {0}) × Option (List ℕ) → Type 0
Keeps encoded file (outcome, after) =
    ((more : List ℕ) × (contents after ≡ complete_lines (contents file) ++ more))
    × (outcome ≡ ok tt → after ≡ some (complete_lines (contents file) ++ encoded))

append_after-Keeps :
    (end : WriteEnd) (encoded : List ℕ) (file repaired : Option (List ℕ))
    → repair_incomplete_tail (contents file) ≡ repaired
    → Keeps encoded file (append_after end encoded file repaired)
unfolding append_after append_bytes write_end
append_after-Keeps end encoded file none r =
    (complete_prefix (contents file), λ h. absurd (ground arith))
append_after-Keeps written encoded file (some bytes) r =
    let whole = ap (λ b. b ++ encoded) (sym (repaired_complete (contents file) bytes r)) in
    ((encoded, whole), λ h. ap some whole)
append_after-Keeps (failed k true) encoded file (some bytes) r = (
  ([], sym (repaired_complete (contents file) bytes r) ∙ sym (append-nil _)),
  λ h. absurd (ground arith),
)
append_after-Keeps (failed k false) encoded file (some bytes) r = (
  (take k encoded, ap (λ b. b ++ take k encoded) (sym (repaired_complete (contents file) bytes r))),
  λ h. absurd (ground arith),
)

-- An append, whether it returns or raises and however its write ends, keeps every completed line of
-- the file, in place; when it returns, its bytes follow the last of them and nothing else does.
pub append_encoded-keeps :
    (safe : Bool) (end : WriteEnd) (encoded : List ℕ) (file : Option (List ℕ))
    → let (outcome, after) = append_encoded safe end encoded file in
      ((more : List ℕ) × (contents after ≡ complete_lines (contents file) ++ more))
      × (outcome ≡ ok tt → after ≡ some (complete_lines (contents file) ++ encoded))
unfolding append_encoded
append_encoded-keeps false end encoded file =
    (complete_prefix (contents file), λ h. absurd (ground arith))
append_encoded-keeps true end encoded file =
    append_after-Keeps end encoded file (repair_incomplete_tail (contents file)) refl
