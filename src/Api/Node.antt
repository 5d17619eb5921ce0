-- ===== src/Api/Node.antt =====
-- src/threshold/api/server.py: the state that the routes share, the node's log and display, and
-- `_usable_grant`. A request runs alone, under `GRANT_LOCK`; `now` is its clock. Observers of the
-- bus are best effort and not modelled.
pub mod Usable
pub mod Denied
use threshold_node.Grants.Authority.{Authority, mark_unavailable}
use threshold_node.Api.Errors.{
  HttpError, node_clock_invalid, authority_unavailable, ledger_unavailable, policy_denied,
  interlock_tripped, reason_text, http_error,
}
use threshold_node.Core.Timestamp.{Moment, aware}
use threshold_node.Core.Types.{EventType, deny_event, event_value, Housefile, Grant}
use threshold_node.Base.{
  if◌then◌else◌, is_some, codes, append_text, Result, ok, err, ℕ, String, Bool, false, not, Option,
  none, some, List,
}
use threshold_node.Grants.Manager.{GrantDecision, normalize_time}
use threshold_node.Hardware.Display.{DisplayError, DisplayState, on_read, on_deny}
use threshold_node.Hardware.Estop.{is_tripped, Interlock}
use threshold_node.Grants.Authority.Mutations.{authorized}
use threshold_node.Grants.Authority.Changes.{Attempt}
use threshold_node.Grants.Authority.Commit.{Step}
use threshold_node.Grants.Platform.{Platform, Disk, Ends}
use threshold_node.Core.QuietHours.{Clock}
use threshold_node.Core.Config.{Settings}
use threshold_node.Core.Ledger.Prepared.{encode_entry}
use threshold_node.Core.Ledger.{WriteEnd, Outcome, append_encoded}
use threshold_node.Core.LedgerEntry.{text, Payload, Entry, EntryError, normalize}

-- `now.astimezone(ZoneInfo(name))`: a local time, one of the errors that `_evaluate_command` catches,
-- an `OSError`, or the `OverflowError` of a time out of range.
pub data LocalTime : Type 0 where
  local : Clock → LocalTime
  zone_invalid zone_unreadable out_of_range : LocalTime

-- What the service runs on: the platform, the local time of a zone, and the Unicode tables of the
-- display.
pub record Server : Type 0 where
  pub env : Platform
  pub settings : Settings
  pub file : Housefile
  pub local_clock : String → ℕ → LocalTime
  pub nfkc : List ℕ → List ℕ
  pub is_space : ℕ → Bool
  pub is_control : ℕ → Bool

-- `AUTHORITY` with its files, `DISPLAY_STATE` and `INTERLOCK`.
pub record Node (F : Type 0) : Type 0 where
  pub authority : Authority
  pub disk : Disk
  pub display : DisplayState
  pub interlock : Interlock F

-- How the writes of a request end.
pub record Fate : Type 0 where
  pub reload : Ends
  pub attempt : Attempt
  pub log_safe : Bool
  pub log_end : WriteEnd

-- The payload that `_log` writes.
abbrev pub log_payload : String → EventType → String → String → Option String → Payload
log_payload ts type agent detail tier = record {
  ts = some (text ts);
  type = some (text (event_value type));
  agent = some (text agent);
  detail = some (text detail);
  tier = elim tier [ none ↦ none | some t ↦ some (text t) ];
  transaction = none;
  grant_revision = none;
}

-- A handler returns or raises, and leaves the node.
abbrev pub Reply : Type 0 → Type 0 → Type 0
Reply F A = Result HttpError A × Node F

module _ {F : Type 0} where
  -- An `OSError` that leaves the body of `_usable_grant` leaves it through `_exclusive`, which makes
  -- the authority unavailable.
  abbrev pub body_os_error : {A : Type 0} → Node F → Reply F A
  body_os_error n =
      (err authority_unavailable, record n { authority = mark_unavailable n.authority })

  abbrev pub with_ledger : Node F → Option (List ℕ) → Node F
  with_ledger n ledger = record n { disk = record { store = n.disk.store; ledger = ledger } }

  abbrev pub with_authority : Node F → Authority × Disk → Node F
  with_authority n x = record n { authority = x.0; disk = x.1 }

  abbrev pub files_of : Node F → Authority × Disk
  files_of n = (n.authority, n.disk)

  -- What follows a log that may raise.
  abbrev pub after_log : {A : Type 0} → Reply F (Unit {0}) → (Node F → Reply F A) → Reply F A
  after_log (ok v, n) k = k n
  after_log (err e, n) k = (err e, n)

  -- `_request_utc` before a handler's body.
  unfoldable pub with_clock : {A : Type 0} → Moment → Node F → (ℕ → Reply F A) → Reply F A
  with_clock now n k = elim (normalize_time now) [
    | err x ↦ (err node_clock_invalid, n)
    | ok t ↦ k t
  ]

module _ {F : Type 0} (srv : Server) where
  logged : Node F → Outcome (Unit {0}) → Reply F (Unit {0})
  logged n (ok v, ledger) = (ok tt, with_ledger n ledger)
  logged n (err x, ledger) = (err ledger_unavailable, with_ledger n ledger)

  log_entry : Fate → Node F → Result EntryError Entry → Reply F (Unit {0})
  unfolding logged
  log_entry fate n (err x) = (err ledger_unavailable, n)
  log_entry fate n (ok entry) =
      elim (encode_entry srv.env.sha256 srv.env.dumps srv.env.loads entry) [
        | err x ↦ (err ledger_unavailable, n)
        | ok encoded ↦ logged n (append_encoded fate.log_safe fate.log_end encoded n.disk.ledger)
      ]

  -- `_log` with `record_event`
  unfoldable pub log_event :
      Fate → EventType → String → String → Option String → ℕ → Node F → Reply F (Unit {0})
  unfolding log_entry
  log_event fate type agent detail tier now n = log_entry fate n (
      normalize srv.env.strip srv.env.fromisoformat "" false
        (log_payload (srv.env.utc_text now) type agent detail tier))

  shown : Node F → Result DisplayError DisplayState → Node F
  shown n (ok display) = record n { display = display }
  shown n (err x) = n

  -- `_display_read`
  unfoldable pub display_read : String → ℕ → Node F → Node F
  unfolding shown
  display_read agent now n =
      shown n
        (on_read srv.nfkc srv.is_space srv.is_control (some (codes agent)) (aware now) n.display)

  -- `_display_deny`
  unfoldable pub display_deny : String → ℕ → Node F → Node F
  unfolding shown
  display_deny agent now n =
      shown n
        (on_deny srv.nfkc srv.is_space srv.is_control (some (codes agent)) (aware now) n.display)

  -- `_log` of a denial, `_display_deny` and the exception.
  unfoldable pub deny_request :
      {A : Type 0} → Fate → String → String → Option String → ℕ → HttpError → Node F → Reply F A
  deny_request fate agent detail tier now e n =
      after_log (log_event fate deny_event agent detail tier now n)
        (λ m. (err e, display_deny agent now m))

  deny_policy : {A : Type 0} → Fate → Grant → GrantDecision → String → ℕ → Node F → Reply F A
  deny_policy fate g d action now n =
      if is_some d.next_status
      then (err (policy_denied d.reason), display_deny g.id now n)
      else deny_request fate g.id
          (append_text action (append_text " refused: " (reason_text d.reason))) none now
          (policy_denied d.reason) n

  pub use_grant :
      {A : Type 0}
      → Fate
      → String
      → ℕ
      → (Grant → Node F → Reply F A)
      → Node F
      → Step (Grant × GrantDecision)
      → Reply F A
  unfolding deny_policy
  use_grant fate action now body n (err e, x) = (err (http_error e), with_authority n x)
  use_grant fate action now body n (ok (g, d), x) =
      let m = with_authority n x in
      if not d.allowed
      then deny_policy fate g d action now m
      else if is_tripped m.interlock.state
      then deny_request fate g.id (append_text action " refused: simulated interlock tripped") none
          now interlock_tripped m
      else body g m

  -- `_usable_grant` around the body of a handler.
  unfoldable pub usable_grant :
      {A : Type 0}
      → Fate
      → String
      → Option String
      → String
      → ℕ
      → (Grant → Node F → Reply F A)
      → Node F
      → Reply F A
  unfolding use_grant
  usable_grant fate grant_id supplied action now body n = use_grant fate action now body n (
      authorized srv.env srv.file fate.reload fate.attempt n.authority n.disk grant_id supplied
        (aware now) action)
