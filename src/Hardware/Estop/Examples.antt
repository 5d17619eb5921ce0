-- ===== src/Hardware/Estop/Examples.antt =====
-- Runs of hardware/estop.py, and its theorems at concrete inputs. Monotonic readings are numbers.
use threshold_node.Hardware.Estop.Sequence.{
  completed, seen_tripped, sequence, trip_calls, trip_report,
}
use threshold_node.Hardware.Estop.{
  armed, tripped, persistence_succeeded, count, finite, Environment, Interlock, safe_utc, trip,
}
use threshold_node.Base.{
  ltb, length, ℕ, ◌+◌, ◌-◌, ◌≤◌, ◌≡◌, refl, ◌↔◌, true, false, none, some, List, [], ◌∷◌, ◌++◌,
}
use threshold_node.Core.Timestamp.{aware}
use threshold_node.Hardware.Estop.Cycles.{
  durables, Command, trip_in, rearm_now, run, rearms, run-durables,
}

-- The second of three adapters raises, and so does the display.
abbrev stormy : Environment ℕ
stormy = record {
  monotonic_start = finite 10;
  utc_clock = some (aware 77);
  display = some false;
  durable_trip = λ t. count 2;
  adapters = true ∷ false ∷ true ∷ [];
  receipt = some (λ n. true);
  monotonic_end = finite 13;
}

abbrev at_rest : Interlock ℕ
at_rest = record { state = armed; last_report = none; calls = [] }

abbrev minus : ℕ → ℕ → ℕ
minus a b = b - a

stormy-trip :
    let r = (trip ltb minus stormy at_rest).1 in
    (r.adapter_completions ≡ 2)
    × (r.adapter_failures ≡ 1)
    × (r.display_failures ≡ 1)
    × (r.suspended_grants ≡ some 2)
    × (r.simulated_elapsed_ms ≡ some 3)
unfolding trip
stormy-trip = (refl, refl, refl, refl, refl)

trip_calls_example :
    let (s', r) = trip ltb minus stormy at_rest in
    (s'.calls ≡ [] ++ seen_tripped (sequence ltb minus stormy r)) × (s'.state ≡ tripped)
trip_calls_example = trip_calls ltb minus stormy at_rest refl

trip_report_example :
    let r = (trip ltb minus stormy at_rest).1 in
    (r.adapter_attempts ≡ length stormy.adapters)
    × (r.adapter_completions ≡ completed stormy.adapters)
    × (r.adapter_failures + r.adapter_completions ≡ r.adapter_attempts)
    × ((persistence_succeeded r ≡ true) ↔ (
        (t : ℕ) × (n : ℕ) × (safe_utc stormy.utc_clock ≡ some t)
        × (stormy.durable_trip t ≡ count n)
        × (r.suspended_grants ≡ some n)))
trip_report_example = trip_report ltb minus stormy at_rest refl

abbrev two_cycles : List (Command ltb minus)
two_cycles = trip_in stormy ∷ trip_in stormy ∷ rearm_now ∷ trip_in stormy ∷ []

run-durables_example :
    durables (run ltb minus two_cycles at_rest).calls
    ≤ durables [] + 1 + rearms ltb minus two_cycles at_rest
run-durables_example = run-durables ltb minus two_cycles at_rest
