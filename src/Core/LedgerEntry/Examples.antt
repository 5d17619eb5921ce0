-- ===== src/Core/LedgerEntry/Examples.antt =====
-- Runs of `_normalize` of core/ledger.py, and its theorem at a concrete input.
use threshold_node.Base.{ok, err, ℕ, String, ◌≡◌, refl, true, false, Option, none, some, List}
use threshold_node.Core.Timestamp.{Moment, aware, is_rfc3339}
use threshold_node.Core.Types.{estop_event}
use threshold_node.Core.LedgerEntry.{
  text, number, Payload, Entry, timestamp_invalid, transaction_incomplete, event_of,
  valid_timestamp, normalize,
}

abbrev same_text : String → String
same_text t = t

abbrev at_zero : List ℕ → Option Moment
at_zero v = some (aware 0)

abbrev bare_stop : Payload
bare_stop = record {
  ts = none;
  type = some (text "ESTOP");
  agent = none;
  detail = none;
  tier = none;
  transaction = none;
  grant_revision = none;
}

abbrev stop_entry : Entry
stop_entry = record {
  ts = "2026-07-15T10:00:00Z";
  type = estop_event;
  agent = "system";
  detail = "";
  tier = none;
  commit = none;
}

run_defaults : normalize same_text at_zero "2026-07-15T10:00:00Z" false bare_stop ≡ ok stop_entry
unfolding normalize event_of valid_timestamp is_rfc3339
run_defaults = refl

run_strict :
    normalize same_text at_zero "2026-07-15T10:00:00Z" true bare_stop ≡ err timestamp_invalid
unfolding normalize event_of
run_strict = refl

run_half_commit :
    normalize same_text at_zero "2026-07-15T10:00:00Z" false
      (record bare_stop { grant_revision = some (number 3) })
    ≡ err transaction_incomplete
unfolding normalize event_of valid_timestamp is_rfc3339
run_half_commit = refl
