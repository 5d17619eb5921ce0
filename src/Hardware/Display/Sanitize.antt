-- ===== src/Hardware/Display/Sanitize.antt =====
-- What `sanitize_agent` of hardware/display.py lets through.
use threshold_node.Base.{
  length, take, All, length-take, codes, ℕ, zero, suc, ◌≤◌, ◌≡◌, ◌⊎◌, Bool, true, false, Option,
  none, some, List, [], ◌∷◌, arith,
}
use threshold_node.Hardware.Display.{
  max_agent_chars, max_agent_input_chars, printable, squeeze, squeeze_gap, or_unknown,
  sanitize_agent,
}

module _ (nfkc : List ℕ → List ℕ) (is_space is_control : ℕ → Bool) where
  -- A space, or neither white space nor of category C.
  abbrev pub IsSafe : ℕ → Type 0
  IsSafe c = (c ≡ b' ') ⊎ ((is_space c ≡ false) × (is_control c ≡ false))

  printable-IsSafe : (r : List ℕ) → All IsSafe (printable nfkc is_space is_control r)
  unfolding printable
  printable-IsSafe [] = tt
  printable-IsSafe (c ∷ r) = ground (arith, printable-IsSafe r)

  mutual
    unfolding squeeze squeeze_gap

    squeeze-IsSafe :
        (b : Bool) (r : List ℕ) → All IsSafe r → All IsSafe (squeeze nfkc is_space is_control b r)
    squeeze-IsSafe b [] h = tt
    squeeze-IsSafe b (c ∷ r) h =
        ground (arith, squeeze_gap-IsSafe b r h.1, squeeze-IsSafe true r h.1)

    squeeze_gap-IsSafe :
        (b : Bool) (r : List ℕ)
        → All IsSafe r
        → All IsSafe (squeeze_gap nfkc is_space is_control b r)
    squeeze_gap-IsSafe b [] h = tt
    squeeze_gap-IsSafe b (c ∷ r) h =
        ground (arith, squeeze_gap-IsSafe b r h.1, squeeze-IsSafe true r h.1)

  All-take {ℓ} : {A : Type 0} (P : A → Type ℓ) (n : ℕ) (r : List A) → All P r → All P (take n r)
  All-take P zero r h = tt
  All-take P (suc n) [] h = tt
  All-take P (suc n) (c ∷ r) h = (h.0, All-take P n r h.1)

  or_unknown_lem :
      (r : List ℕ)
      → All IsSafe (codes "UNKNOWN")
      → All IsSafe r
      → length r ≤ max_agent_chars
      → All IsSafe (or_unknown nfkc is_space is_control r)
        × (1 ≤ length (or_unknown nfkc is_space is_control r))
        × (length (or_unknown nfkc is_space is_control r) ≤ max_agent_chars)
  unfolding or_unknown
  or_unknown_lem [] u h le = (u, omega arith, omega arith)
  or_unknown_lem (c ∷ r) u h le = (h, omega arith, le)

  -- Where the letters of UNKNOWN are plain characters, a sanitized agent has 1 to 32 characters,
  -- each a space or neither white space nor of category C, whatever value it is made of.
  pub sanitize_agent-IsSafe :
      (value : Option (List ℕ))
      → All IsSafe (codes "UNKNOWN")
      → All IsSafe (sanitize_agent nfkc is_space is_control value)
        × (1 ≤ length (sanitize_agent nfkc is_space is_control value))
        × (length (sanitize_agent nfkc is_space is_control value) ≤ max_agent_chars)
  unfolding sanitize_agent
  sanitize_agent-IsSafe none u = (u, omega arith, omega arith)
  sanitize_agent-IsSafe (some value) u =
      let clean = printable nfkc is_space is_control (nfkc (take max_agent_input_chars value)) in
      let words = squeeze nfkc is_space is_control false clean in
      or_unknown_lem (take max_agent_chars words) u
        (All-take IsSafe max_agent_chars words (squeeze-IsSafe false clean (printable-IsSafe _)))
        (omega (arith, length-take max_agent_chars words))
