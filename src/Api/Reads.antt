-- ===== src/Api/Reads.antt =====
-- src/threshold/api/server.py: the route `GET /housefile`.
pub mod Disclosed
use threshold_node.Api.Node.{
  Server, Node, Fate, Reply, after_log, with_clock, log_event, display_read, display_deny,
  usable_grant,
}
use threshold_node.Base.{if◌then◌else◌, ok, ℕ, String, Bool, true, false, Option, none}
use threshold_node.Housefile.ScopedView.{View, inactive_view, active_view, scoped_view}
use threshold_node.Core.Timestamp.{Moment}
use threshold_node.Core.Types.{read_event, deny_event, Grant}

abbrev pub is_error_view : View → Bool
is_error_view (inactive_view schema grant_id status) = true
is_error_view (active_view d) = false

module _ {F : Type 0} (srv : Server) where
  read_view : Fate → ℕ → Grant → View → Node F → Reply F View
  read_view fate now g view n =
      if is_error_view view
      then after_log (log_event srv fate deny_event g.id "scoped read" none now n)
          (λ m. (ok view, display_deny srv g.id now m))
      else after_log (log_event srv fate read_event g.id "scoped read" none now n)
          (λ m. (ok view, display_read srv g.id now m))

  read_at : Fate → String → Option String → Node F → ℕ → Reply F View
  unfolding read_view
  read_at fate grant_id supplied n now =
      usable_grant srv fate grant_id supplied "scoped read" now
        (λ g m. read_view fate now g (scoped_view srv.file g) m) n

  -- `housefile`
  unfoldable pub get_housefile : Fate → String → Option String → Moment → Node F → Reply F View
  unfolding read_at
  get_housefile fate grant_id supplied now n =
      with_clock now n (λ t. read_at fate grant_id supplied n t)
