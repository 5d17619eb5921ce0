-- ===== src/Api/Commands/Gates.antt =====
-- What a command must pass in api/server.py.
use threshold_node.Base.{
  Bool-cases, append_text, lookup, err, ℕ, String, ◌≡◌, refl, sym, ap, ◌∙◌, subst, ◌⊎◌, inl, inr,
  true, false, Option, none, some, arith,
}
use threshold_node.Api.Node.{
  LocalTime, local, zone_invalid, zone_unreadable, out_of_range, Server, Node, Fate, Reply,
  with_authority, with_clock, use_grant, usable_grant,
}
use threshold_node.Api.Errors.{
  quiet_denied, timezone_invalid, unsupported_params, gate_refused, adapter_not_configured,
  quiet_text,
}
use threshold_node.Core.Types.{deny_event, Grant}
use threshold_node.Api.Commands.{
  CommandRequest, within_boundary, evaluate_gates, evaluate_command, command_at, post_command,
}
use threshold_node.Api.Node.Denied.{deny_request_cases, use_grant-gate}
use threshold_node.Api.Node.Usable.{Receipt}
use threshold_node.Hardware.Estop.{armed}
use threshold_node.Grants.Authority.Mutations.Authorized.{authorized-allowed}
use threshold_node.Grants.Authority.Mutations.{authorized}
use threshold_node.Grants.Authority.{Authority, ensure_ready}
use threshold_node.Grants.Platform.{Disk}
use threshold_node.Grants.Manager.{normalize_time, decision}
use threshold_node.Core.Timestamp.{Moment, not_a_datetime, naive, aware}
use threshold_node.Core.QuietHours.{QuietHoursDecision, Clock, evaluate_command_quiet_hours}
use threshold_node.Core.Auth.{token_matches}
use threshold_node.Api.Commands.Boundary.{Covers, within_boundary_lem}

LocalTime-cases :
    (l : LocalTime)
    → ((clock : Clock) × (l ≡ local clock))
      ⊎ ((l ≡ zone_invalid) ⊎ ((l ≡ zone_unreadable) ⊎ (l ≡ out_of_range)))
LocalTime-cases (local clock) = inl (clock, refl)
LocalTime-cases zone_invalid = inr (inl refl)
LocalTime-cases zone_unreadable = inr (inr (inl refl))
LocalTime-cases out_of_range = inr (inr (inr refl))

module _ {F : Type 0} (srv : Server) where
  -- A command that reaches the end has passed the quiet hours, the parameters and the boundary.
  evaluate_gates-passed :
      (fate : Fate) (body : CommandRequest) (g : Grant) (now : ℕ) (quiet : QuietHoursDecision)
      (n : Node F)
      → (evaluate_gates srv fate body g now quiet n).0 ≡ err adapter_not_configured
      → (quiet.allowed ≡ true)
        × (body.has_params ≡ false)
        × (within_boundary srv.file body g ≡ true)
        × Receipt srv deny_event g.id "command not relayed: adapter unavailable"
            (some "UNAVAILABLE")
            now
            n
            (evaluate_gates srv fate body g now quiet n).1
  unfolding evaluate_gates
  evaluate_gates-passed fate body g now quiet n h = elim (Bool-cases quiet.allowed) [
    | inr q ↦
        elim (deny_request_cases srv (Unit {0}) fate g.id
          (append_text "command refused: " (quiet_text quiet.reason)) none now
          (quiet_denied quiet.reason) adapter_not_configured n (ground arith)) [
            | inl (same, receipt) ↦ absurd (ground arith)
            | inr same ↦ absurd (ground arith)
          ]
    | inl q ↦ elim (Bool-cases body.has_params) [
      | inl p ↦
          elim (deny_request_cases srv (Unit {0}) fate g.id
            "command refused: parameters unsupported" none now unsupported_params
            adapter_not_configured n (ground arith)) [
              | inl (same, receipt) ↦ absurd (ground arith)
              | inr same ↦ absurd (ground arith)
            ]
      | inr p ↦ elim (Bool-cases (within_boundary srv.file body g)) [
        | inr w ↦
            elim (deny_request_cases srv (Unit {0}) fate g.id "command refused: policy boundary"
              none now gate_refused adapter_not_configured n (ground arith)) [
                | inl (same, receipt) ↦ absurd (ground arith)
                | inr same ↦ absurd (ground arith)
              ]
        | inl w ↦
            elim (deny_request_cases srv (Unit {0}) fate g.id
              "command not relayed: adapter unavailable" (some "UNAVAILABLE") now
              adapter_not_configured adapter_not_configured n (ground arith)) [
                | inl (same, receipt) ↦ (
                  q,
                  p,
                  w,
                  subst
                      (λ (m : Node F).
                        Receipt srv deny_event g.id "command not relayed: adapter unavailable"
                          (some "UNAVAILABLE") now n m)
                      (ground arith) receipt,
                )
                | inr same ↦ absurd (ground arith)
              ]
      ]
    ]
  ]

  abbrev pub Passed : Fate → CommandRequest → Option String → Node F → ℕ → Node F → Type 0
  Passed fate body supplied n now m =
      let x = ensure_ready srv.env srv.file fate.reload n.authority n.disk in
      (g : Grant) × ((lookup body.grant x.0.grants ≡ some g)
        × (token_matches srv.env.token_sha256 supplied g.credential_digest ≡ true)
        × ((decision srv.env.fromisoformat 0 g (some (aware now))).allowed ≡ true)
        × (n.interlock.state ≡ armed)
        × ((clock : Clock) × ((srv.local_clock srv.file.policies.timezone now ≡ local clock)
              × ((evaluate_command_quiet_hours (some srv.file.policies.quiet_start)
                    (some srv.file.policies.quiet_end) clock).allowed
                  ≡ true)))
        × (body.has_params ≡ false)
        × Covers srv.file body g
        × Receipt srv deny_event g.id "command not relayed: adapter unavailable"
            (some "UNAVAILABLE") now (with_authority n x) m)

  evaluate_command-passed :
      (fate : Fate) (body : CommandRequest) (g : Grant) (now : ℕ) (n : Node F)
      → (evaluate_command srv fate body g now n).0 ≡ err adapter_not_configured
      → ((clock : Clock) × ((srv.local_clock srv.file.policies.timezone now ≡ local clock)
            × ((evaluate_command_quiet_hours
                  (some srv.file.policies.quiet_start)
                  (some srv.file.policies.quiet_end)
                  clock).allowed
                ≡ true)))
        × (body.has_params ≡ false)
        × (within_boundary srv.file body g ≡ true)
        × Receipt srv deny_event g.id "command not relayed: adapter unavailable"
            (some "UNAVAILABLE")
            now
            n
            (evaluate_command srv fate body g now n).1
  unfolding evaluate_command
  evaluate_command-passed fate body g now n h =
      elim (LocalTime-cases (srv.local_clock srv.file.policies.timezone now)) [
        | inr (inr (inl e)) ↦ absurd (ground arith)
        | inr (inr (inr e)) ↦ absurd (ground arith)
        | inr (inl e) ↦
            elim (deny_request_cases srv (Unit {0}) fate g.id
              "command refused: quiet_hours_timezone_invalid" none now timezone_invalid
              adapter_not_configured n (ground arith)) [
                | inl (same, receipt) ↦ absurd (ground arith)
                | inr same ↦ absurd (ground arith)
              ]
        | inl (clock, e) ↦
            let quiet =
              evaluate_command_quiet_hours (some srv.file.policies.quiet_start)
                (some srv.file.policies.quiet_end) clock in
            let (q, p, w, receipt) = evaluate_gates-passed fate body g now quiet n (ground arith) in
            (
              (clock, (e, q)),
              p,
              w,
              subst
                  (λ (m : Node F).
                    Receipt srv deny_event g.id "command not relayed: adapter unavailable"
                      (some "UNAVAILABLE") now n m)
                  (ground arith) receipt,
            )
      ]

  -- The answer that only the missing adapter stands in the way is given to a command of an
  -- authenticated, allowed grant, with the interlock armed, outside the quiet hours of the house's
  -- time zone, without parameters, for a zone of the house that is granted and not no-go, and with
  -- the scope of its verb; and it leaves the line of the denial in the ledger.
  pub post_command-gates :
      (fate : Fate) (body : CommandRequest) (supplied : Option String) (now : Moment) (n : Node F)
      → (post_command srv fate body supplied now n).0 ≡ err adapter_not_configured
      → (t : ℕ) × ((now ≡ aware t)
          × Passed fate body supplied n t (post_command srv fate body supplied now n).1)
  unfolding post_command with_clock normalize_time command_at usable_grant
  post_command-gates fate body supplied not_a_datetime n h = absurd (ground arith)
  post_command-gates fate body supplied naive n h = absurd (ground arith)
  post_command-gates fate body supplied (aware t) n h =
      let run : Grant → Node F → Reply F (Unit {0}) = λ g m. evaluate_command srv fate body g t m in
      let x =
        authorized srv.env srv.file fate.reload fate.attempt n.authority n.disk body.grant supplied
          (aware t) "command" in
      let (g, (d, yielded, allowed, armed_then, same)) =
        use_grant-gate srv fate "command" t run n adapter_not_configured x h refl in
      let (at, valid, matches, allows, disk) =
        authorized-allowed srv.env srv.file fate.reload fate.attempt n.authority n.disk body.grant
          supplied (aware t) "command" g d yielded allowed in
      let (quiet, plain, within, receipt) =
        evaluate_command-passed fate body g t (with_authority n x.1)
          (ap (λ (r : Reply F (Unit {0})). r.0) (sym same) ∙ h) in
      let moved_on =
        subst
          (λ (m : Node F).
            Receipt srv deny_event g.id "command not relayed: adapter unavailable"
              (some "UNAVAILABLE") t (with_authority n x.1) m)
          (ap (λ (r : Reply F (Unit {0})). r.1) (sym same)) receipt in
      (
        t,
        (
          refl,
          (
            g,
            (
              at,
              matches,
              allows,
              armed_then,
              quiet,
              plain,
              within_boundary_lem srv.file body g within,
              subst
                  (λ (y : Authority × Disk).
                    Receipt srv deny_event g.id "command not relayed: adapter unavailable"
                      (some "UNAVAILABLE") t (with_authority n y)
                      (use_grant srv fate "command" t run n x).1)
                  disk moved_on,
            ),
          ),
        ),
      )
