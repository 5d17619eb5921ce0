-- ===== src/Core/LedgerEntry.antt =====
-- src/threshold/core/ledger.py: `_normalize`, which reduces an event to the ledger's fields. The
-- payload is a mapping of which only these keys are read; `strip` is `str.strip`, `now` the default
-- timestamp.
pub mod Normal
mod Examples
use threshold_node.Base.{
  ltb, leb, eqb, if◌then◌else◌, codes, is_hex, Result, ok, err, ◌>>=◌, ℕ, zero, suc, ◌-◌, ◌^◌,
  String, Bool, true, false, ◌&&◌, Option, none, some, List, [], ◌∷◌, ◌==◌,
}
use threshold_node.Core.Timestamp.{Moment, aware, is_rfc3339, replace_z}
use threshold_node.Core.Types.{
  EventType, grant_event, read_event, deny_event, revoke_event, estop_event, provision_event,
  event_value,
}

-- A value of a payload: an enum member counts as its text; `negative` is an `int` below 0.
pub data Value : Type 0 where
  text : String → Value
  number : ℕ → Value
  negative other : Value

-- `payload.get(key, _MISSING)` for each key that is read.
pub record Payload : Type 0 where
  pub ts : Option Value
  pub type : Option Value
  pub agent : Option Value
  pub detail : Option Value
  pub tier : Option Value
  pub transaction : Option Value
  pub grant_revision : Option Value

-- The canonical event; `commit` holds `transaction` and `grant_revision`, which stand together.
pub record Entry : Type 0 where
  pub ts : String
  pub type : EventType
  pub agent : String
  pub detail : String
  pub tier : Option String
  pub commit : Option (String × ℕ)

-- The `ValueError`s.
pub data EntryError : Type 0 where
  type_required type_unknown timestamp_invalid agent_required detail_required : EntryError
  tier_invalid transaction_incomplete transaction_invalid : EntryError

-- `[0-9a-f]{n}\Z`
unfoldable pub is_hex_run : ℕ → List ℕ → Bool
is_hex_run zero [] = true
is_hex_run zero (c ∷ r) = false
is_hex_run (suc n) [] = false
is_hex_run (suc n) (c ∷ r) = is_hex c && is_hex_run n r

-- `_DIGEST`
unfoldable pub is_digest : String → Bool
unfolding is_hex_run
is_digest value = is_hex_run 64 (codes value)

after_prefix : List ℕ → Bool
unfolding is_hex_run
after_prefix (a ∷ b ∷ c ∷ r) = eqb a b't' && eqb b b'x' && eqb c b'-' && is_hex_run 32 r
after_prefix _ = false

-- `_TRANSACTION_ID`
unfoldable pub is_transaction_id : String → Bool
unfolding after_prefix
is_transaction_id value = after_prefix (codes value)

-- `event_name not in ALLOWED_EVENT_TYPES`
unfoldable pub event_of : String → Option EventType
event_of name =
    if name == "GRANT"
    then some grant_event
    else if name == "READ"
    then some read_event
    else if name == "DENY"
    then some deny_event
    else if name == "REVOKE"
    then some revoke_event
    else if name == "ESTOP"
    then some estop_event
    else if name == "PROVISION"
    then some provision_event
    else none

abbrev pub max_revision : ℕ
max_revision = 2 ^ 63 - 1

module _ (strip : String → String) (fromisoformat : List ℕ → Option Moment) where
  is_aware : Option Moment → Bool
  is_aware (some (aware t)) = true
  is_aware _ = false

  -- `_validate_timestamp`, and `_valid_timestamp` of grants/store.py but for its length.
  unfoldable pub valid_timestamp : String → Bool
  unfolding is_aware
  valid_timestamp value =
      is_rfc3339 (codes value) && is_aware (fromisoformat (replace_z (codes value)))

  type_field : Option Value → Result EntryError EventType
  type_field (some (text t)) =
      if strip t == ""
      then err type_required
      else (elim (event_of (strip t)) [ none ↦ err type_unknown | some e ↦ ok e ])
  type_field _ = err type_required

  -- A field that is missing has a default, unless the mode is strict.
  or_default : Bool → String → Option Value → Option Value
  or_default true d v = v
  or_default false d none = some (text d)
  or_default false d (some v) = some v

  ts_field : Option Value → Result EntryError String
  ts_field (some (text t)) =
      if strip t == ""
      then err timestamp_invalid
      else if valid_timestamp t
      then ok t
      else err timestamp_invalid
  ts_field _ = err timestamp_invalid

  agent_field : Option Value → Result EntryError String
  agent_field (some (text t)) = if t == "" then err agent_required else ok t
  agent_field _ = err agent_required

  detail_field : Option Value → Result EntryError String
  detail_field (some (text t)) = ok t
  detail_field _ = err detail_required

  tier_field : Option Value → Result EntryError (Option String)
  tier_field none = ok none
  tier_field (some (text t)) = if t == "" then err tier_invalid else ok (some t)
  tier_field (some _) = err tier_invalid

  commit_field : Option Value → Option Value → Result EntryError (Option (String × ℕ))
  commit_field none none = ok none
  commit_field none (some r) = err transaction_incomplete
  commit_field (some t) none = err transaction_incomplete
  commit_field (some (text t)) (some (number r)) =
      if is_transaction_id t && ltb 0 r && leb r max_revision
      then ok (some (t, r))
      else err transaction_invalid
  commit_field (some _) (some _) = err transaction_invalid

  -- `JsonlLedger._normalize`
  unfoldable pub normalize : String → Bool → Payload → Result EntryError Entry
  unfolding type_field or_default ts_field agent_field detail_field tier_field commit_field
  normalize now strict p = do
    type ← type_field p.type
    ts ← ts_field (or_default strict now p.ts)
    agent ← agent_field (or_default strict "system" p.agent)
    detail ← detail_field (or_default strict "" p.detail)
    tier ← tier_field p.tier
    commit ← commit_field p.transaction p.grant_revision
    ok (record {
      ts = ts;
      type = type;
      agent = agent;
      detail = detail;
      tier = tier;
      commit = commit;
    })

abbrev pub text_of : Option String → Option Value
text_of none = none
text_of (some t) = some (text t)

abbrev pub transaction_of : Option (String × ℕ) → Option Value
transaction_of none = none
transaction_of (some (t, r)) = some (text t)

abbrev pub revision_of : Option (String × ℕ) → Option Value
revision_of none = none
revision_of (some (t, r)) = some (number r)

-- The entry as the mapping that it is.
unfoldable pub payload_of : Entry → Payload
payload_of e = record {
  ts = some (text e.ts);
  type = some (text (event_value e.type));
  agent = some (text e.agent);
  detail = some (text e.detail);
  tier = text_of e.tier;
  transaction = transaction_of e.commit;
  grant_revision = revision_of e.commit;
}
