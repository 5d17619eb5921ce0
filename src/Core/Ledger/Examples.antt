-- ===== src/Core/Ledger/Examples.antt =====
-- Runs of the tail repair of core/ledger.py, and its theorems at concrete inputs.
use threshold_node.Base.{ℕ, ◌≡◌, refl, none, some, List, [], ◌∷◌, ◌++◌, arith}
use threshold_node.Core.Ledger.{newline, rfind_newline, newline_at, repair_within}
use threshold_node.Core.Ledger.Repair.{complete_lines, repair_complete, repair_succeeds}

abbrev first_line : List ℕ
first_line = b'o' ∷ b'l' ∷ b'd' ∷ newline ∷ []

abbrev torn : List ℕ
torn = first_line ++ (b'n' ∷ b'e' ∷ [])

run_repair : repair_within 2 torn ≡ some first_line
unfolding repair_within rfind_newline newline_at
run_repair = refl

run_repair_refuses : repair_within 1 torn ≡ none
unfolding repair_within rfind_newline newline_at
run_repair_refuses = refl

repair_complete_example : first_line ≡ complete_lines torn
repair_complete_example = repair_complete 2 torn first_line run_repair

repair_succeeds_example : repair_within 3 torn ≡ some (complete_lines torn)
unfolding complete_lines
repair_succeeds_example = repair_succeeds 3 torn (omega arith)
