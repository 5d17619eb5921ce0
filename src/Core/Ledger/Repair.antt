-- ===== src/Core/Ledger/Repair.antt =====
-- `_repair_incomplete_tail` of core/ledger.py drops the line that a crash has torn, and no other.
use threshold_node.Base.{
  eqb, if◌then◌else◌, Bool-cases, Option-cases, length, take, drop, is_empty, ℕ, zero, suc, ◌+◌,
  ◌-◌, ◌≤◌, ◌<◌, min, ◌≡◌, refl, sym, ap, ◌∙◌, inl, inr, true, false, none, some, List, [], ◌∷◌,
  arith,
}
use threshold_node.Core.Ledger.{
  max_entry_bytes, newline, rfind_newline, newline_at, truncated, repair_within,
  repair_incomplete_tail,
}

-- What stands after the last newline, dropped: the lines that were completed.
unfoldable pub complete_lines : List ℕ → List ℕ
complete_lines [] = []
complete_lines (c ∷ r) =
    let rest = complete_lines r in
    if is_empty rest then (if eqb c newline then c ∷ [] else []) else c ∷ rest

rfind_complete :
    (xs : List ℕ)
    → complete_lines xs ≡ (elim (rfind_newline xs) [ none ↦ [] | some i ↦ take (suc i) xs ])
unfolding complete_lines rfind_newline
rfind_complete [] = refl
rfind_complete (c ∷ []) = ground arith
rfind_complete (c ∷ d ∷ r) = ground (arith, rfind_complete (d ∷ r))

rfind-drop :
    (n i : ℕ) (xs : List ℕ) → rfind_newline (drop n xs) ≡ some i → rfind_newline xs ≡ some (n + i)
unfolding rfind_newline
rfind-drop zero i xs h = h ∙ ap some (omega arith)
rfind-drop (suc n) i [] h = cc
rfind-drop (suc n) i (c ∷ r) h = ground (arith, rfind-drop n i r h)

rfind-drop-suc :
    (n : ℕ) (xs : List ℕ)
    → rfind_newline (drop (suc n) xs) ≡ none
    → newline_at n xs ≡ true
    → rfind_newline xs ≡ some n
unfolding rfind_newline newline_at
rfind-drop-suc n [] h k = cc
rfind-drop-suc zero (c ∷ r) h k = ground arith
rfind-drop-suc (suc n) (c ∷ r) h k = ground (arith, rfind-drop-suc n r h k)

rfind-drop-none :
    (n : ℕ) (xs : List ℕ)
    → rfind_newline (drop (suc n) xs) ≡ none
    → newline_at n xs ≡ false
    → rfind_newline (drop n xs) ≡ none
unfolding rfind_newline newline_at
rfind-drop-none zero [] h k = h
rfind-drop-none (suc n) [] h k = h
rfind-drop-none zero (c ∷ r) h k = ground arith
rfind-drop-none (suc n) (c ∷ r) h k = rfind-drop-none n r h k

complete-le :
    (n : ℕ) (xs : List ℕ) → rfind_newline (drop n xs) ≡ none → length (complete_lines xs) ≤ n
unfolding complete_lines
complete-le n [] h = omega arith
complete-le zero (c ∷ r) h =
    let e : complete_lines (c ∷ r) ≡ [] = rfind_complete (c ∷ r) ∙ rw h in
    omega (arith, ap length e)
complete-le (suc n) (c ∷ r) h = ground (arith, complete-le n r h)

complete-ends : (xs : List ℕ) → newline_at (length xs - 1) xs ≡ true → complete_lines xs ≡ xs
unfolding complete_lines newline_at
complete-ends [] h = cc
complete-ends (c ∷ []) h = ground arith
complete-ends (c ∷ d ∷ r) h =
    let shorter : newline_at (length (d ∷ r) - 1) (d ∷ r) ≡ true = ground arith in
    ground (arith, complete-ends (d ∷ r) shorter)

empty_complete : (bytes : List ℕ) → length bytes ≡ 0 → complete_lines bytes ≡ bytes
unfolding complete_lines
empty_complete [] h = refl
empty_complete (c ∷ r) h = absurd (omega arith)

truncated-none :
    (start : ℕ) (bytes kept : List ℕ)
    → rfind_newline (drop start bytes) ≡ none
    → truncated start bytes none ≡ some kept
    → kept ≡ complete_lines bytes
unfolding truncated
truncated-none zero bytes kept e h = ground (arith, rfind_complete bytes)
truncated-none (suc n) bytes kept e h =
    ground (arith, rfind_complete bytes, rfind-drop-suc n bytes e)

truncated_refuses :
    (start : ℕ) (bytes : List ℕ)
    → truncated start bytes (rfind_newline (drop start bytes)) ≡ none
    → length (complete_lines bytes) < start
unfolding truncated
truncated_refuses zero bytes h = absurd (ground arith)
truncated_refuses (suc n) bytes h = elim (Option-cases (rfind_newline (drop (suc n) bytes))) [
  | inl e ↦
      let k : newline_at n bytes ≡ false = ground arith in
      omega (arith, complete-le n bytes (rfind-drop-none n bytes e k))
  | inr (i, e) ↦ absurd (ground arith)
]

repair_refuses :
    (limit : ℕ) (bytes : List ℕ)
    → repair_within limit bytes ≡ none
    → ¬ (length bytes ≤ length (complete_lines bytes) + limit)
unfolding repair_within
repair_refuses limit bytes h short =
    let start = length bytes - min (length bytes) limit in
    let none_left : truncated start bytes (rfind_newline (drop start bytes)) ≡ none =
      ground arith in
    omega (arith, truncated_refuses start bytes none_left)

truncated_complete :
    (start : ℕ) (bytes kept : List ℕ)
    → truncated start bytes (rfind_newline (drop start bytes)) ≡ some kept
    → kept ≡ complete_lines bytes
unfolding truncated
truncated_complete start bytes kept h = elim (Option-cases (rfind_newline (drop start bytes))) [
  | inl e ↦ truncated-none start bytes kept e (ap (λ o. truncated start bytes o) (sym e) ∙ h)
  | inr (i, e) ↦
      let found : complete_lines bytes ≡ take (suc (start + i)) bytes =
        rfind_complete bytes ∙ rw (rfind-drop start i bytes e) refl in
      let same : start + i + 1 ≡ suc (start + i) = omega arith in
      cc (e, h, found, ap (λ n. take n bytes) same)
]

-- What a repair leaves is exactly the completed lines: the torn end of the file goes, and not a byte
-- of a completed line.
pub repair_complete :
    (limit : ℕ) (bytes kept : List ℕ)
    → repair_within limit bytes ≡ some kept
    → kept ≡ complete_lines bytes
unfolding repair_within
repair_complete limit bytes kept h = elim (Bool-cases (newline_at (length bytes - 1) bytes)) [
  | inl e ↦ ground (arith, complete-ends bytes e)
  | inr e ↦ elim (Bool-cases (eqb (length bytes) 0)) [
    | inl z ↦ ground (arith, empty_complete bytes (ground arith))
    | inr n ↦ truncated_complete (length bytes - min (length bytes) limit) bytes kept (ground arith)
  ]
]

-- A repair succeeds whenever the torn end is no longer than the recovery limit.
pub repair_succeeds :
    (limit : ℕ) (bytes : List ℕ)
    → length bytes ≤ length (complete_lines bytes) + limit
    → repair_within limit bytes ≡ some (complete_lines bytes)
repair_succeeds limit bytes short = elim (Option-cases (repair_within limit bytes)) [
  | inl e ↦ absurd (repair_refuses limit bytes e short)
  | inr (kept, e) ↦ e ∙ ap some (repair_complete limit bytes kept e)
]

pub repaired_complete :
    (bytes kept : List ℕ) → repair_incomplete_tail bytes ≡ some kept → complete_lines bytes ≡ kept
unfolding repair_incomplete_tail
repaired_complete bytes kept h = sym (repair_complete max_entry_bytes bytes kept h)
