-- ===== src/Api/Commands.antt =====
-- src/threshold/api/server.py: the route `POST /command`, which evaluates a command and relays none.
pub mod Boundary
pub mod Gates
use threshold_node.Base.{
  if◌then◌else◌, text_in, append_text, err, ℕ, String, Bool, false, not, ◌&&◌, Option, none, some,
}
use threshold_node.Api.Node.{
  local, zone_invalid, zone_unreadable, out_of_range, Server, Node, Fate, Reply, body_os_error,
  with_clock, deny_request, usable_grant,
}
use threshold_node.Api.Errors.{
  quiet_denied, timezone_invalid, unsupported_params, gate_refused, adapter_not_configured,
  internal, quiet_text,
}
use threshold_node.Core.QuietHours.{QuietHoursDecision, evaluate_command_quiet_hours}
use threshold_node.Core.Timestamp.{Moment}
use threshold_node.Core.Types.{
  Scope, cmd_navigate, cmd_manipulate, is_no_go, has_scope, Housefile, zone_of, Grant,
}

pub data Verb : Type 0 where
  navigate manipulate : Verb

-- The body of the request; of `params` only whether it is empty is read.
pub record CommandRequest : Type 0 where
  pub grant : String
  pub verb : Verb
  pub zone : String
  pub has_params : Bool

-- `required_scope`
abbrev pub required_scope : Verb → Scope
required_scope navigate = cmd_navigate
required_scope manipulate = cmd_manipulate

-- The condition of the policy boundary, negated.
unfoldable pub within_boundary : Housefile → CommandRequest → Grant → Bool
within_boundary file body g = elim (zone_of file body.zone) [
  | none ↦ false
  | some z ↦
      text_in z.id g.zones
      && not (is_no_go z.access)
      && has_scope (required_scope body.verb) g.scopes
]

module _ {F : Type 0} (srv : Server) where
  evaluate_gates :
      Fate → CommandRequest → Grant → ℕ → QuietHoursDecision → Node F → Reply F (Unit {0})
  evaluate_gates fate body g now quiet n =
      if not quiet.allowed
      then deny_request srv fate g.id (append_text "command refused: " (quiet_text quiet.reason))
          none now (quiet_denied quiet.reason) n
      else if body.has_params
      then deny_request srv fate g.id "command refused: parameters unsupported" none now
          unsupported_params n
      else if not (within_boundary srv.file body g)
      then deny_request srv fate g.id "command refused: policy boundary" none now gate_refused n
      else deny_request srv fate g.id "command not relayed: adapter unavailable"
          (some "UNAVAILABLE") now adapter_not_configured n

  -- `_evaluate_command`
  unfoldable pub evaluate_command : Fate → CommandRequest → Grant → ℕ → Node F → Reply F (Unit {0})
  unfolding evaluate_gates
  evaluate_command fate body g now n = elim (srv.local_clock srv.file.policies.timezone now) [
    | zone_unreadable ↦ body_os_error n
    | out_of_range ↦ (err internal, n)
    | zone_invalid ↦
        deny_request srv fate g.id "command refused: quiet_hours_timezone_invalid" none now
          timezone_invalid n
    | local clock ↦
        evaluate_gates fate body g now
          (evaluate_command_quiet_hours (some srv.file.policies.quiet_start)
            (some srv.file.policies.quiet_end) clock)
          n
  ]

  command_at : Fate → CommandRequest → Option String → Node F → ℕ → Reply F (Unit {0})
  command_at fate body supplied n now =
      usable_grant srv fate body.grant supplied "command" now
        (λ g m. evaluate_command fate body g now m) n

  -- `command`
  unfoldable pub post_command :
      Fate → CommandRequest → Option String → Moment → Node F → Reply F (Unit {0})
  unfolding command_at
  post_command fate body supplied now n = with_clock now n (λ t. command_at fate body supplied n t)
