-- ===== src/Api/Reads/Disclosed.antt =====
-- When `GET /housefile` of api/server.py discloses a view.
use threshold_node.Grants.Manager.{GrantDecision, normalize_time, decision}
use threshold_node.Grants.Authority.Mutations.{authorized}
use threshold_node.Base.{
  if◌then◌else◌, lookup, ok, ℕ, String, ◌≡◌, refl, sym, ap, ◌∙◌, subst, true, Option, none, some,
  arith,
}
use threshold_node.Api.Reads.{is_error_view, read_view, read_at, get_housefile}
use threshold_node.Api.Node.Usable.{
  Receipt, log_event-Receipt, after_ok, display_read_disk, display_deny_disk, usable_grant-body,
}
use threshold_node.Api.Node.{
  Server, Node, Fate, Reply, with_authority, after_log, with_clock, log_event, display_read,
  display_deny,
}
use threshold_node.Hardware.Estop.{armed}
use threshold_node.Housefile.ScopedView.{View, inactive_view, active_view, scoped_view}
use threshold_node.Grants.Authority.Mutations.Authorized.{authorized-allowed}
use threshold_node.Grants.Authority.{Authority, ensure_ready}
use threshold_node.Grants.Platform.{Disk}
use threshold_node.Core.Timestamp.{Moment, not_a_datetime, naive, aware}
use threshold_node.Core.Auth.{is_valid_bearer_token, token_matches}
use threshold_node.Core.Types.{EventType, read_event, deny_event, Grant}

-- The event that is logged for a view.
abbrev pub view_event : View → EventType
view_event view = if is_error_view view then deny_event else read_event

module _ {F : Type 0} (srv : Server) where
  moved :
      {type : EventType} {agent detail : String} {tier : Option String} {now : ℕ} {n m : Node F}
      (k : Node F)
      → Receipt srv type agent detail tier now n m
      → k.disk ≡ m.disk
      → Receipt srv type agent detail tier now n k
  moved k r same = record {
    entry = r.entry;
    encoded = r.encoded;
    normal = r.normal;
    line = r.line;
    kept = ap (λ (d : Disk). d.ledger) same ∙ r.kept;
  }

  read_view-Receipt :
      (fate : Fate) (now : ℕ) (g : Grant) (seen view : View) (n : Node F)
      → (read_view srv fate now g seen n).0 ≡ ok view
      → (view ≡ seen)
        × Receipt srv
            (view_event seen)
            g.id
            "scoped read"
            none
            now
            n
            (read_view srv fate now g seen n).1
  unfolding read_view
  read_view-Receipt fate now g (inactive_view schema grant_id status) view n h =
      let k : Node F → Reply F View =
        λ m. (ok (inactive_view schema grant_id status), display_deny srv g.id now m) in
      let log = log_event srv fate deny_event g.id "scoped read" none now n in
      let (r, e) = after_ok srv log k view h in
      let node : (after_log log k).1 ≡ display_deny srv g.id now log.1 =
        ap (λ (w : Reply F View). w.1) e in
      let value : ok (inactive_view schema grant_id status) ≡ ok view =
        ap (λ (w : Reply F View). w.0) (sym e) ∙ h in
      (
        ground arith,
        moved (read_view srv fate now g (inactive_view schema grant_id status) n).1
            (log_event-Receipt srv fate deny_event g.id "scoped read" none now n tt r)
            (ap (λ (w : Node F). w.disk) node ∙ display_deny_disk srv g.id now log.1),
      )
  read_view-Receipt fate now g (active_view d) view n h =
      let k : Node F → Reply F View = λ m. (ok (active_view d), display_read srv g.id now m) in
      let log = log_event srv fate read_event g.id "scoped read" none now n in
      let (r, e) = after_ok srv log k view h in
      let node : (after_log log k).1 ≡ display_read srv g.id now log.1 =
        ap (λ (w : Reply F View). w.1) e in
      let value : ok (active_view d) ≡ ok view = ap (λ (w : Reply F View). w.0) (sym e) ∙ h in
      (
        ground arith,
        moved (read_view srv fate now g (active_view d) n).1
            (log_event-Receipt srv fate read_event g.id "scoped read" none now n tt r)
            (ap (λ (w : Node F). w.disk) node ∙ display_read_disk srv g.id now log.1),
      )

  abbrev pub Discloses : Fate → String → Option String → Node F → ℕ → View → Node F → Type 0
  Discloses fate grant_id supplied n now view m =
      let x = ensure_ready srv.env srv.file fate.reload n.authority n.disk in
      (g : Grant) × ((lookup grant_id x.0.grants ≡ some g)
        × (is_valid_bearer_token supplied ≡ true)
        × (token_matches srv.env.token_sha256 supplied g.credential_digest ≡ true)
        × ((decision srv.env.fromisoformat 0 g (some (aware now))).allowed ≡ true)
        × (n.interlock.state ≡ armed)
        × (view ≡ scoped_view srv.file g)
        × Receipt srv (view_event view) g.id "scoped read" none now (with_authority n x) m)

  read_at-Discloses :
      (fate : Fate) (grant_id : String) (supplied : Option String) (n : Node F) (now : ℕ)
      (view : View)
      → (read_at srv fate grant_id supplied n now).0 ≡ ok view
      → Discloses fate grant_id supplied n now view (read_at srv fate grant_id supplied n now).1
  unfolding read_at
  read_at-Discloses fate grant_id supplied n now view h =
      let body : Grant → Node F → Reply F View =
        λ g m. read_view srv fate now g (scoped_view srv.file g) m in
      let x =
        authorized srv.env srv.file fate.reload fate.attempt n.authority n.disk grant_id supplied
          (aware now) "scoped read" in
      let (g, (d, yielded, allowed, armed_then, same)) =
        usable_grant-body srv fate grant_id supplied "scoped read" now body n view h in
      let (at, valid, matches, allows, disk) =
        authorized-allowed srv.env srv.file fate.reload fate.attempt n.authority n.disk grant_id
          supplied (aware now) "scoped read" g d yielded allowed in
      let (seen, receipt) =
        read_view-Receipt fate now g (scoped_view srv.file g) view (with_authority n x.1)
          (ap (λ (r : Reply F View). r.0) (sym same) ∙ h) in
      let there =
        subst
          (λ (v : View).
            Receipt srv (view_event v) g.id "scoped read" none now (with_authority n x.1)
              (read_view srv fate now g (scoped_view srv.file g) (with_authority n x.1)).1)
          (sym seen) receipt in
      let moved_on =
        subst
          (λ (m : Node F).
            Receipt srv (view_event view) g.id "scoped read" none now (with_authority n x.1) m)
          (ap (λ (r : Reply F View). r.1) (sym same)) there in
      (
        g,
        (
          at,
          valid,
          matches,
          allows,
          armed_then,
          seen,
          subst
              (λ (y : Authority × Disk).
                Receipt srv (view_event view) g.id "scoped read" none now (with_authority n y)
                  (read_at srv fate grant_id supplied n now).1)
              disk moved_on,
        ),
      )

  -- A view that the route returns is the scoped view of a grant that the reloaded authority has under
  -- the id, whose digest is that of the valid token supplied and which the grant manager allows at the
  -- clock of the request; the interlock is armed; and the ledger then holds the line of the read, or
  -- of a denial for an inactive view, after the completed lines that the reload left.
  pub get_housefile-Discloses :
      (fate : Fate) (grant_id : String) (supplied : Option String) (now : Moment) (n : Node F)
      (view : View)
      → (get_housefile srv fate grant_id supplied now n).0 ≡ ok view
      → (t : ℕ) × ((now ≡ aware t)
          × Discloses fate grant_id supplied n t view
              (get_housefile srv fate grant_id supplied now n).1)
  unfolding get_housefile with_clock normalize_time
  get_housefile-Discloses fate grant_id supplied not_a_datetime n view h = absurd (ground arith)
  get_housefile-Discloses fate grant_id supplied naive n view h = absurd (ground arith)
  get_housefile-Discloses fate grant_id supplied (aware t) n view h =
      (t, (refl, read_at-Discloses fate grant_id supplied n t view h))

  pub get_housefile-yielded :
      (fate : Fate) (grant_id : String) (supplied : Option String) (now : Moment) (n : Node F)
      (view : View)
      → (get_housefile srv fate grant_id supplied now n).0 ≡ ok view
      → (t : ℕ) × ((g : Grant) × ((d : GrantDecision) × ((authorized srv.env srv.file fate.reload
                fate.attempt n.authority n.disk grant_id supplied
                (aware t)
                "scoped read").0
              ≡ ok (g, d))
            × (d.allowed ≡ true)))
  unfolding get_housefile with_clock normalize_time read_at
  get_housefile-yielded fate grant_id supplied not_a_datetime n view h = absurd (ground arith)
  get_housefile-yielded fate grant_id supplied naive n view h = absurd (ground arith)
  get_housefile-yielded fate grant_id supplied (aware t) n view h =
      let body : Grant → Node F → Reply F View =
        λ g m. read_view srv fate t g (scoped_view srv.file g) m in
      let (g, (d, yielded, allowed, armed_then, same)) =
        usable_grant-body srv fate grant_id supplied "scoped read" t body n view h in
      (t, (g, (d, yielded, allowed)))
