-- ===== src/Hardware/Display/Examples.antt =====
-- Runs of hardware/display.py, and its theorems at concrete inputs, over ASCII.
use threshold_node.Base.{
  ltb, leb, eqb, length, All, codes, ok, ℕ, ◌≤◌, ◌≡◌, refl, Bool, false, ◌&&◌, ◌||◌, none, some,
  List, [], ◌∷◌, arith,
}
use threshold_node.Core.Timestamp.{naive, aware}
use threshold_node.Hardware.Display.{
  read_mode, tripped_mode, DisplayState, fresh_display, sanitize_agent, trip_display, frame,
}
use threshold_node.Hardware.Display.Latch.{
  Event, read_shown, deny_shown, trip_shown, apply_all, tripped_until_rearm,
}
use threshold_node.Hardware.Display.Sanitize.{IsSafe, sanitize_agent-IsSafe}

abbrev same : List ℕ → List ℕ
same r = r

abbrev ascii_space : ℕ → Bool
ascii_space c = eqb c b' ' || (leb 9 c && leb c 13)

abbrev ascii_control : ℕ → Bool
ascii_control c = ltb c 32 || eqb c 127

cleaned :
    sanitize_agent same ascii_space ascii_control (some (codes "  NEO   Unit ")) ≡ codes "NEO Unit"
unfolding sanitize_agent
cleaned = refl

abbrev reading : DisplayState
reading = record {
  tripped = false;
  transient =
      some (record { mode = read_mode; agent = codes "NEO"; started_at = 5; expires_at = 2000005 });
}

abbrev bustle : List Event
bustle = read_shown none (aware 1) ∷ trip_shown ∷ deny_shown (some (codes "x")) naive ∷ []

tripped_until_rearm_example :
    frame
      (some 3)
      (aware 9)
      (apply_all same ascii_space ascii_control bustle (trip_display fresh_display))
    ≡ ok (record { mode = tripped_mode; active_grants = 3; agent = none })
tripped_until_rearm_example =
    tripped_until_rearm same ascii_space ascii_control bustle fresh_display 3 9 refl (omega arith)

unknown_IsSafe : All (IsSafe same ascii_space ascii_control) (codes "UNKNOWN")
unknown_IsSafe = ground arith

sanitize_agent-IsSafe_example :
    All (IsSafe same ascii_space ascii_control) (sanitize_agent same ascii_space ascii_control none)
    × (1 ≤ length (sanitize_agent same ascii_space ascii_control none))
    × (length (sanitize_agent same ascii_space ascii_control none) ≤ 32)
sanitize_agent-IsSafe_example =
    sanitize_agent-IsSafe same ascii_space ascii_control none unknown_IsSafe
