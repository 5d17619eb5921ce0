-- ===== src/Api/Node/Denied.antt =====
-- How the denials of api/server.py end: with their error and its line in the ledger, or for want of
-- the ledger.
-- The errors that only the body of `POST /command` raises.
use threshold_node.Api.Node.Usable.{is_armed, Receipt, log_event-Receipt, display_deny_disk}
use threshold_node.Api.Node.{
  Server, Node, Fate, log_payload, Reply, with_authority, after_log, logged, log_entry, log_event,
  display_deny, deny_request, deny_policy, use_grant,
}
use threshold_node.Api.Errors.{
  HttpError, ledger_unavailable, policy_denied, quiet_denied, interlock_tripped, timezone_invalid,
  unsupported_params, gate_refused, adapter_not_configured, reason_text, http_error,
}
use threshold_node.Hardware.Estop.{armed, is_tripped}
use threshold_node.Grants.Authority.Commit.{
  AuthorityError, unavailable, credential_conflict, authentication_failed, unknown_grant, refused,
  Step,
}
use threshold_node.Grants.Platform.{Disk}
use threshold_node.Grants.Manager.{GrantDecision}
use threshold_node.Core.Ledger.Prepared.{encode_entry}
use threshold_node.Core.Ledger.{Outcome, append_encoded}
use threshold_node.Core.LedgerEntry.{normalize}
use threshold_node.Core.Types.{EventType, deny_event, Grant}
use threshold_node.Base.{
  Bool-cases, is_some, append_text, ok, err, Result-cases, ℕ, String, ◌≡◌, refl, ap, ◌∙◌, ◌⊎◌, inl,
  inr, Bool, true, false, Option, none, arith,
}

abbrev pub from_gate : HttpError → Bool
from_gate (quiet_denied r) = true
from_gate timezone_invalid = true
from_gate unsupported_params = true
from_gate gate_refused = true
from_gate adapter_not_configured = true
from_gate _ = false

no_gate : (e : AuthorityError) → from_gate (http_error e) ≡ false
no_gate unavailable = refl
no_gate credential_conflict = refl
no_gate authentication_failed = refl
no_gate unknown_grant = refl
no_gate (refused r) = refl

after_value :
    {F A : Type 0} (m : Reply F (Unit {0})) (k : Node F → Reply F A)
    → m.0 ≡ ok tt
    → after_log m k ≡ k m.1
after_value (ok tt, n) k h = refl
after_value (err e, n) k h = absurd (ground arith)

module _ {F : Type 0} (srv : Server) where
  logged_error :
      (n : Node F) (result : Outcome (Unit {0})) (e : HttpError)
      → (logged srv n result).0 ≡ err e
      → e ≡ ledger_unavailable
  unfolding logged
  logged_error n (ok v, ledger) e h = absurd (ground arith)
  logged_error n (err x, ledger) e h = ground arith

  log_event_error :
      (fate : Fate) (type : EventType) (agent detail : String) (tier : Option String) (now : ℕ)
      (n : Node F) (e : HttpError)
      → (log_event srv fate type agent detail tier now n).0 ≡ err e
      → e ≡ ledger_unavailable
  unfolding log_event log_entry
  log_event_error fate type agent detail tier now n e h =
      elim (Result-cases (
        normalize srv.env.strip srv.env.fromisoformat "" false
          (log_payload (srv.env.utc_text now) type agent detail tier))) [
            | inr (x, r) ↦ ground arith
            | inl (entry, r) ↦
                elim (Result-cases
                  (encode_entry srv.env.sha256 srv.env.dumps srv.env.loads entry)) [
                    | inr (x, f) ↦ ground arith
                    | inl (encoded, f) ↦
                        logged_error n
                          (append_encoded fate.log_safe fate.log_end encoded n.disk.ledger) e
                          (ground arith)
                  ]
          ]

  pub deny_request_cases :
      (A : Type 0) (fate : Fate) (agent detail : String) (tier : Option String) (now : ℕ)
      (e f : HttpError) (n : Node F)
      → (deny_request srv {A = A} fate agent detail tier now e n).0 ≡ err f
      → ((f ≡ e)
          × Receipt srv deny_event agent detail tier now n
              (deny_request srv {A = A} fate agent detail tier now e n).1)
        ⊎ (f ≡ ledger_unavailable)
  unfolding deny_request
  deny_request_cases A fate agent detail tier now e f n h =
      let log = log_event srv fate deny_event agent detail tier now n in
      elim (Result-cases log.0) [
        | inr (x, r) ↦
            let same = log_event_error fate deny_event agent detail tier now n x r in
            inr (ground arith)
        | inl (tt, r) ↦
            let receipt = log_event-Receipt srv fate deny_event agent detail tier now n tt r in
            let still = display_deny_disk srv agent now log.1 in
            inl (
              ground arith,
              record {
                entry = receipt.entry;
                encoded = receipt.encoded;
                normal = receipt.normal;
                line = receipt.line;
                kept =
                    ap (λ (w : Reply F A). w.1.disk.ledger)
                      (after_value log (λ m. (err e, display_deny srv agent now m)) r)
                    ∙ ap (λ (d : Disk). d.ledger) still
                    ∙ receipt.kept;
              },
            )
      ]

  deny_policy_gate :
      (A : Type 0) (fate : Fate) (g : Grant) (d : GrantDecision) (action : String) (now : ℕ)
      (n : Node F) (e : HttpError)
      → (deny_policy srv {A = A} fate g d action now n).0 ≡ err e
      → from_gate e ≡ false
  unfolding deny_policy
  deny_policy_gate A fate g d action now n e h = elim (Bool-cases (is_some d.next_status)) [
    | inl r ↦ ground arith
    | inr r ↦
        elim (deny_request_cases A fate g.id
          (append_text action (append_text " refused: " (reason_text d.reason))) none now
          (policy_denied d.reason) e n (ground arith)) [
            | inl (same, receipt) ↦ ground arith
            | inr same ↦ ground arith
          ]
  ]

  pub use_grant-gate :
      {A : Type 0} (fate : Fate) (action : String) (now : ℕ) (body : Grant → Node F → Reply F A)
      (n : Node F) (e : HttpError) (x : Step (Grant × GrantDecision))
      → (use_grant srv fate action now body n x).0 ≡ err e
      → from_gate e ≡ true
      → (g : Grant) × ((d : GrantDecision) × (x.0 ≡ ok (g, d))
          × (d.allowed ≡ true)
          × (n.interlock.state ≡ armed)
          × (use_grant srv fate action now body n x ≡ body g (with_authority n x.1)))
  unfolding use_grant
  use_grant-gate fate action now body n e (err f, y) h gate =
      let outer = no_gate f in absurd (ground arith)
  use_grant-gate {A} fate action now body n e (ok (g, d), y) h gate =
      let m = with_authority n y in
      elim (Bool-cases d.allowed) [
        | inr r ↦
            let outer = deny_policy_gate A fate g d action now m e (ground arith) in
            absurd (ground arith)
        | inl r ↦ elim (Bool-cases (is_tripped n.interlock.state)) [
          | inl s ↦
              elim (deny_request_cases A fate g.id
                (append_text action " refused: simulated interlock tripped") none now
                interlock_tripped e m (ground arith)) [
                  | inl (same, receipt) ↦ absurd (ground arith)
                  | inr same ↦ absurd (ground arith)
                ]
          | inr s ↦ (g, (d, refl, r, is_armed n.interlock.state s, ground arith))
        ]
      ]
