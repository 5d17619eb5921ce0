-- ===== src/Api/Withheld.antt =====
-- After an emergency stop or a revocation, no route of api/server.py discloses anything for the
-- grants that were withdrawn.
use threshold_node.Grants.Authority.Mutations.Withdrawals.{
  revoke_grant-authorized, suspend_grants-authorized,
}
use threshold_node.Base.{
  ok, String, ◌≡◌, sym, ◌∙◌, subst, ◌≢◌, Bool, true, false, Option, [], arith,
}
use threshold_node.Api.Issuing.Requires.{post_revoke-revokes}
use threshold_node.Api.Issuing.{PublicGrant, post_revoke}
use threshold_node.Api.Stop.Stopped.{post_trip-stops, rearm_same}
use threshold_node.Api.Stop.{TripResponse, post_trip, post_rearm}
use threshold_node.Api.Reads.Disclosed.{get_housefile-yielded}
use threshold_node.Api.Reads.{get_housefile}
use threshold_node.Api.Node.{Server, Node, Fate}
use threshold_node.Hardware.Estop.{Reading}
use threshold_node.Housefile.ScopedView.{View}
use threshold_node.Grants.Authority.Mutations.{authorized}
use threshold_node.Grants.Authority.Changes.{Attempt}
use threshold_node.Grants.Authority.Commit.Atomic.{reloads}
use threshold_node.Grants.Authority.{Authority}
use threshold_node.Grants.Platform.{Disk, Ends}
use threshold_node.Grants.Manager.{GrantDecision}
use threshold_node.Core.Timestamp.{Moment, aware}
use threshold_node.Core.Types.{Grant}

-- On this authority and these files the id authorizes nothing.
abbrev Barred : Server → String → Authority × Disk → Type 0
Barred srv grant_id x =
    (ends : Ends) (t : Attempt) (supplied : Option String) (now : Moment) (action : String)
    (g : Grant) (d : GrantDecision)
    → (authorized srv.env srv.file ends t x.0 x.1 grant_id supplied now action).0 ≡ ok (g, d)
    → d.allowed ≡ false

module _ {F : Type 0} (srv : Server) where
  Barred-reads :
      (fate : Fate) (grant_id : String) (supplied : Option String) (later : Moment) (m : Node F)
      (view : View)
      → Barred srv grant_id (m.authority, m.disk)
      → (get_housefile srv fate grant_id supplied later m).0 ≢ ok view
  Barred-reads fate grant_id supplied later m view barred h =
      let (t, (g, (d, yielded, allowed))) =
        get_housefile-yielded srv fate grant_id supplied later m view h in
      let refused_it =
        barred fate.reload fate.attempt supplied (aware t) "scoped read" g d yielded in
      absurd (ground arith)

  -- After a stop that was answered as new, and a rearm or an attempt at one, no credential and no
  -- grant id makes the node disclose a view, at any clock: rearming restores no grant.
  pub post_trip-withholds :
      (before : F → F → Bool) (elapsed_between : F → F → F) (fate : Fate) (now : Moment)
      (rendered : Bool) (started ended : Reading F) (n : Node F) (v : TripResponse F) (fate' : Fate)
      (grant_id : String) (supplied : Option String) (later : Moment) (view : View)
      → (post_trip before elapsed_between srv fate now rendered started ended n).0 ≡ ok v
      → v.newly_tripped ≡ true
      → let m =
          (post_rearm srv.settings
            (post_trip before elapsed_between srv fate now rendered started ended n).1).1 in
        (get_housefile srv fate' grant_id supplied later m).0 ≢ ok view
  unfolding reloads
  post_trip-withholds before elapsed_between fate now rendered started ended n v fate' grant_id
        supplied later view h new =
      let reply = post_trip before elapsed_between srv fate now rendered started ended n in
      let m = (post_rearm srv.settings reply.1).1 in
      let (t, (clock, stopped, left, latched, shown_then)) =
        post_trip-stops before elapsed_between srv fate now rendered started ended n v h new in
      Barred-reads fate' grant_id supplied later m view (
        subst (λ (x : Authority × Disk). Barred srv grant_id x)
          (sym left ∙ sym (rearm_same before elapsed_between srv srv.settings reply.1))
          (λ ends a s u action g d yielded.
            suspend_grants-authorized srv.env srv.file fate.reload fate.attempt n.authority n.disk
              (aware t) v.suspended_grants [] ends a grant_id s u action g d stopped yielded))

  -- After a revocation that the route has answered, no credential makes the node disclose a view for
  -- the revoked id, at any clock.
  pub post_revoke-withholds :
      (first : Ends) (fate : Fate) (grant_id : String) (now : Moment) (n : Node F)
      (v : PublicGrant × Bool) (fate' : Fate) (supplied : Option String) (later : Moment)
      (view : View)
      → (post_revoke srv first fate grant_id now n).0 ≡ ok v
      → (get_housefile srv fate' grant_id supplied later
          (post_revoke srv first fate grant_id now n).1).0
        ≢ ok view
  unfolding reloads
  post_revoke-withholds first fate grant_id now n v fate' supplied later view h =
      let m = (post_revoke srv first fate grant_id now n).1 in
      let (t, (k, (w, revoked_then, left))) =
        post_revoke-revokes srv first fate grant_id now n v h in
      Barred-reads fate' grant_id supplied later m view (
        subst (λ (x : Authority × Disk). Barred srv grant_id x) (sym left)
          (λ ends a s u action g d yielded.
            revoke_grant-authorized srv.env srv.file fate.reload fate.attempt k.authority k.disk
              grant_id (aware t) w [] ends a s u action g d revoked_then yielded))
