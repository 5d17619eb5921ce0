-- ===== src/Core/LedgerEntry/Normal.antt =====
-- `_normalize` of core/ledger.py reduces an event once and for all.
use threshold_node.Base.{
  ok, ℕ, String, ◌≡◌, refl, Bool, true, false, Option, none, some, List, arith, ◌==◌,
}
use threshold_node.Core.Timestamp.{Moment}
use threshold_node.Core.Types.{
  EventType, grant_event, read_event, deny_event, revoke_event, estop_event, provision_event,
  event_value,
}
use threshold_node.Core.LedgerEntry.{
  Value, text, number, negative, other, Payload, Entry, event_of, type_field, or_default, ts_field,
  agent_field, tier_field, commit_field, normalize, text_of, transaction_of, revision_of,
  payload_of,
}

event_of-event_value : (e : EventType) → event_of (event_value e) ≡ some e
unfolding event_of
event_of-event_value grant_event = refl
event_of-event_value read_event = refl
event_of-event_value deny_event = refl
event_of-event_value revoke_event = refl
event_of-event_value estop_event = refl
event_of-event_value provision_event = refl

event_value-ne-empty : (e : EventType) → (event_value e == "") ≡ false
event_value-ne-empty grant_event = refl
event_value-ne-empty read_event = refl
event_value-ne-empty deny_event = refl
event_value-ne-empty revoke_event = refl
event_value-ne-empty estop_event = refl
event_value-ne-empty provision_event = refl

module _ (strip : String → String) (fromisoformat : List ℕ → Option Moment)
    (strip-event : (e : EventType) → strip (event_value e) ≡ event_value e) where
  type_field-value :
      (e : EventType) → type_field strip fromisoformat (some (text (event_value e))) ≡ ok e
  unfolding type_field
  type_field-value e = rw (strip-event e, event_value-ne-empty e, event_of-event_value e)

  ts_field-again :
      (v : Option Value) (t : String)
      → ts_field strip fromisoformat v ≡ ok t
      → ts_field strip fromisoformat (some (text t)) ≡ ok t
  unfolding ts_field
  ts_field-again (some (text u)) t h = ground arith
  ts_field-again _ t h = cc

  agent_field-again :
      (v : Option Value) (t : String)
      → agent_field strip fromisoformat v ≡ ok t
      → agent_field strip fromisoformat (some (text t)) ≡ ok t
  unfolding agent_field
  agent_field-again (some (text u)) t h = ground arith
  agent_field-again _ t h = cc

  tier_field-again :
      (v : Option Value) (t : Option String)
      → tier_field strip fromisoformat v ≡ ok t
      → tier_field strip fromisoformat (text_of t) ≡ ok t
  unfolding tier_field
  tier_field-again none t h = ground arith
  tier_field-again (some (text u)) t h = ground arith
  tier_field-again _ t h = cc

  commit_field-again :
      (v w : Option Value) (t : Option (String × ℕ))
      → commit_field strip fromisoformat v w ≡ ok t
      → commit_field strip fromisoformat (transaction_of t) (revision_of t) ≡ ok t
  unfolding commit_field
  commit_field-again none none t h = ground arith
  commit_field-again (some (text u)) (some (number r)) t h = ground arith
  commit_field-again none (some r) t h = cc
  commit_field-again (some (number x)) none t h = cc
  commit_field-again (some (number x)) (some w) t h = cc
  commit_field-again (some negative) none t h = cc
  commit_field-again (some negative) (some w) t h = cc
  commit_field-again (some other) none t h = cc
  commit_field-again (some other) (some w) t h = cc
  commit_field-again (some (text u)) none t h = cc
  commit_field-again (some (text u)) (some (text w)) t h = cc
  commit_field-again (some (text u)) (some negative) t h = cc
  commit_field-again (some (text u)) (some other) t h = cc

  -- The fields that a normalized event was made of.
  record Parts (now : String) (strict : Bool) (p : Payload) (e : Entry) : Type 0 where
    ts : ts_field strip fromisoformat (or_default strip fromisoformat strict now p.ts) ≡ ok e.ts
    agent :
        agent_field strip fromisoformat (or_default strip fromisoformat strict "system" p.agent)
        ≡ ok e.agent
    tier : tier_field strip fromisoformat p.tier ≡ ok e.tier
    commit : commit_field strip fromisoformat p.transaction p.grant_revision ≡ ok e.commit

  normalize-Parts :
      (now : String) (strict : Bool) (p : Payload) (e : Entry)
      → normalize strip fromisoformat now strict p ≡ ok e
      → Parts now strict p e
  unfolding normalize
  normalize-Parts now strict p e h = ground arith

  -- With a `strip` that keeps the names of events, an event that was normalized, with defaults or
  -- not, is its own strict normal form.
  pub normalize_again :
      (now now' : String) (strict : Bool) (p : Payload) (e : Entry)
      → normalize strip fromisoformat now strict p ≡ ok e
      → normalize strip fromisoformat now' true (payload_of e) ≡ ok e
  unfolding normalize payload_of
  normalize_again now now' strict p e h =
      let parts = normalize-Parts now strict p e h in
      rw (
        type_field-value e.type,
        ts_field-again (or_default strip fromisoformat strict now p.ts) e.ts parts.ts,
        agent_field-again (or_default strip fromisoformat strict "system" p.agent) e.agent
            parts.agent,
        tier_field-again p.tier e.tier parts.tier,
        commit_field-again p.transaction p.grant_revision e.commit parts.commit,
      )
