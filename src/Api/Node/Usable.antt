-- ===== src/Api/Node/Usable.antt =====
-- What the log and `_usable_grant` of api/server.py let through.
use threshold_node.Api.Node.{
  Server, Node, Fate, log_payload, Reply, with_authority, after_log, logged, log_entry, log_event,
  shown, display_read, display_deny, deny_request, deny_policy, use_grant, usable_grant,
}
use threshold_node.Api.Errors.{HttpError, policy_denied, interlock_tripped, reason_text}
use threshold_node.Hardware.Estop.{InterlockState, armed, tripped, is_tripped}
use threshold_node.Base.{
  Bool-cases, is_some, codes, append_text, ok, err, Result-cases, ℕ, String, ◌≡◌, refl, sym, ap,
  ◌∙◌, ◌≢◌, inl, inr, true, false, Option, none, some, List, ◌++◌, arith,
}
use threshold_node.Hardware.Display.{on_read, on_deny}
use threshold_node.Grants.Authority.Mutations.{authorized}
use threshold_node.Grants.Authority.Commit.{Step}
use threshold_node.Grants.Manager.{GrantDecision}
use threshold_node.Core.Ledger.Prepared.{encode_entry}
use threshold_node.Core.Ledger.Appends.{append_encoded-keeps}
use threshold_node.Core.Ledger.Repair.{complete_lines}
use threshold_node.Core.Ledger.{contents, Outcome, append_encoded}
use threshold_node.Core.LedgerEntry.{Entry, normalize}
use threshold_node.Core.Timestamp.{aware}
use threshold_node.Core.Types.{EventType, deny_event, Grant}

pub is_armed : (s : InterlockState) → is_tripped s ≡ false → s ≡ armed
is_armed armed h = refl
is_armed tripped h = absurd (ground arith)

module _ {F : Type 0} (srv : Server) where
  -- The ledger of `m` holds the completed lines of that of `n`, and then the line of the event.
  pub record Receipt (type : EventType) (agent detail : String) (tier : Option String) (now : ℕ)
      (n m : Node F) : Type 0 where
    pub entry : Entry
    pub encoded : List ℕ
    pub normal :
        normalize srv.env.strip srv.env.fromisoformat "" false
          (log_payload (srv.env.utc_text now) type agent detail tier)
        ≡ ok entry
    pub line : encode_entry srv.env.sha256 srv.env.dumps srv.env.loads entry ≡ ok encoded
    pub kept : m.disk.ledger ≡ some (complete_lines (contents n.disk.ledger) ++ encoded)

  logged_line :
      (fate : Fate) (n : Node F) (result : Outcome (Unit {0})) (encoded : List ℕ) (v : Unit {0})
      → result ≡ append_encoded fate.log_safe fate.log_end encoded n.disk.ledger
      → (logged srv n result).0 ≡ ok v
      → (logged srv n result).1.disk.ledger
        ≡ some (complete_lines (contents n.disk.ledger) ++ encoded)
  unfolding logged
  logged_line fate n (ok x, ledger) encoded v same h =
      ap (λ (r : Outcome (Unit {0})). r.1) same
      ∙ (append_encoded-keeps fate.log_safe fate.log_end encoded n.disk.ledger).1
          (ap (λ (r : Outcome (Unit {0})). r.0) (sym same))
  logged_line fate n (err x, ledger) encoded v same h = absurd (ground arith)

  pub log_event-Receipt :
      (fate : Fate) (type : EventType) (agent detail : String) (tier : Option String) (now : ℕ)
      (n : Node F) (v : Unit {0})
      → (log_event srv fate type agent detail tier now n).0 ≡ ok v
      → Receipt type agent detail tier now n (log_event srv fate type agent detail tier now n).1
  unfolding log_event log_entry
  log_event-Receipt fate type agent detail tier now n v h =
      elim (Result-cases (
        normalize srv.env.strip srv.env.fromisoformat "" false
          (log_payload (srv.env.utc_text now) type agent detail tier))) [
            | inr (x, e) ↦ absurd (ground arith)
            | inl (entry, e) ↦
                elim (Result-cases
                  (encode_entry srv.env.sha256 srv.env.dumps srv.env.loads entry)) [
                    | inr (x, f) ↦ absurd (ground arith)
                    | inl (encoded, f) ↦
                        let result =
                          append_encoded fate.log_safe fate.log_end encoded n.disk.ledger in
                        let there = logged_line fate n result encoded v refl (ground arith) in
                        record {
                          entry = entry;
                          encoded = encoded;
                          normal = e;
                          line = f;
                          kept = ground arith;
                        }
                  ]
          ]

  pub after_ok :
      {A : Type 0} (m : Reply F (Unit {0})) (k : Node F → Reply F A) (v : A)
      → (after_log m k).0 ≡ ok v
      → (m.0 ≡ ok tt) × (after_log m k ≡ k m.1)
  after_ok (ok tt, n) k v h = (refl, refl)
  after_ok (err e, n) k v h = absurd (ground arith)

  pub display_read_disk :
      (agent : String) (now : ℕ) (n : Node F) → (display_read srv agent now n).disk ≡ n.disk
  unfolding display_read shown
  display_read_disk agent now n =
      elim (Result-cases
        (on_read srv.nfkc srv.is_space srv.is_control (some (codes agent)) (aware now) n.display)) [
          | inl (d, e) ↦ ground arith
          | inr (x, e) ↦ ground arith
        ]

  pub display_deny_disk :
      (agent : String) (now : ℕ) (n : Node F) → (display_deny srv agent now n).disk ≡ n.disk
  unfolding display_deny shown
  display_deny_disk agent now n =
      elim (Result-cases
        (on_deny srv.nfkc srv.is_space srv.is_control (some (codes agent)) (aware now) n.display)) [
          | inl (d, e) ↦ ground arith
          | inr (x, e) ↦ ground arith
        ]

  -- A denied request never returns.
  pub deny_request_raises :
      {A : Type 0} (fate : Fate) (agent detail : String) (tier : Option String) (now : ℕ)
      (e : HttpError) (n : Node F) (v : A)
      → (deny_request srv {A = A} fate agent detail tier now e n).0 ≢ ok v
  unfolding deny_request
  deny_request_raises fate agent detail tier now e n v h =
      let parts =
        after_ok (log_event srv fate deny_event agent detail tier now n)
          (λ m. (err e, display_deny srv agent now m)) v h in
      absurd (ground arith)

  deny_policy_raises :
      {A : Type 0} (fate : Fate) (g : Grant) (d : GrantDecision) (action : String) (now : ℕ)
      (n : Node F) (v : A)
      → (deny_policy srv {A = A} fate g d action now n).0 ≢ ok v
  unfolding deny_policy
  deny_policy_raises fate g d action now n v h = elim (Bool-cases (is_some d.next_status)) [
    | inl e ↦ absurd (ground arith)
    | inr e ↦
        deny_request_raises fate g.id
          (append_text action (append_text " refused: " (reason_text d.reason))) none now
          (policy_denied d.reason) n v (ground arith)
  ]

  use_grant-body :
      {A : Type 0} (fate : Fate) (action : String) (now : ℕ) (body : Grant → Node F → Reply F A)
      (n : Node F) (v : A) (x : Step (Grant × GrantDecision))
      → (use_grant srv fate action now body n x).0 ≡ ok v
      → (g : Grant) × ((d : GrantDecision) × (x.0 ≡ ok (g, d))
          × (d.allowed ≡ true)
          × (n.interlock.state ≡ armed)
          × (use_grant srv fate action now body n x ≡ body g (with_authority n x.1)))
  unfolding use_grant
  use_grant-body fate action now body n v (err e, y) h = absurd (ground arith)
  use_grant-body fate action now body n v (ok (g, d), y) h =
      let m = with_authority n y in
      elim (Bool-cases d.allowed) [
        | inr r ↦ absurd (deny_policy_raises fate g d action now m v (ground arith))
        | inl r ↦ elim (Bool-cases (is_tripped n.interlock.state)) [
          | inl s ↦ absurd (
              deny_request_raises fate g.id
                (append_text action " refused: simulated interlock tripped") none now
                interlock_tripped m v (ground arith))
          | inr s ↦ (g, (d, refl, r, is_armed n.interlock.state s, ground arith))
        ]
      ]

  -- The body of a handler runs only for an authenticated grant that its decision allows, while the
  -- interlock is armed, on what the authority has left.
  pub usable_grant-body :
      {A : Type 0} (fate : Fate) (grant_id : String) (supplied : Option String) (action : String)
      (now : ℕ) (body : Grant → Node F → Reply F A) (n : Node F) (v : A)
      → (usable_grant srv fate grant_id supplied action now body n).0 ≡ ok v
      → let x =
          authorized srv.env srv.file fate.reload fate.attempt n.authority n.disk grant_id supplied
            (aware now)
            action in
        (g : Grant) × ((d : GrantDecision) × (x.0 ≡ ok (g, d))
          × (d.allowed ≡ true)
          × (n.interlock.state ≡ armed)
          × (usable_grant srv fate grant_id supplied action now body n
              ≡ body g (with_authority n x.1)))
  unfolding usable_grant
  usable_grant-body fate grant_id supplied action now body n v h =
      use_grant-body fate action now body n v
        (authorized srv.env srv.file fate.reload fate.attempt n.authority n.disk grant_id supplied
          (aware now) action)
        h
