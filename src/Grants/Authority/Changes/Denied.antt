-- ===== src/Grants/Authority/Changes/Denied.antt =====
-- The changes of grants/authority.py that withdraw grants leave none active.
use threshold_node.Grants.Authority.Changes.{set_status, active_statuses, suspend_each, is_ended}
use threshold_node.Core.Types.{GrantStatus, active, revoked, expired, suspended, is_active, Grant}
use threshold_node.Base.{
  if◌then◌else◌, Bool-cases, Option-cases, Dict, lookup, contains, lookup-insert, String, ◌≡◌, refl,
  subst, inl, inr, true, false, some, [], ◌∷◌, arith, ◌==◌, eq_iff, eq_refl,
}
use mathlib.Core.Option

-- No grant under the id is active.
abbrev pub Denied : String → Dict Grant → Type 0
Denied grant_id grants = (g : Grant) → lookup grant_id grants ≡ some g → is_active g.status ≡ false

pub lookup-set_status :
    (k j : String) (status : GrantStatus) (d : Dict Grant)
    → lookup j (set_status k status d) ≡ (
        if k == j
        then Option.map {B = Grant} (λ (g : Grant). record g { status = status }) (lookup j d)
        else lookup j d)
lookup-set_status k j status d = elim (Option-cases (lookup k d)) [
  | inl e ↦ ground (arith, eq_iff k j)
  | inr (g, e) ↦ ground (arith, eq_iff k j, lookup-insert k j (record g { status = status }) d)
]

pub set_status-withdraws :
    (k : String) (status : GrantStatus) (d : Dict Grant)
    → is_active status ≡ false
    → Denied k (set_status k status d)
set_status-withdraws k status d h g at =
    let there = lookup-set_status k k status d in
    elim (Option-cases (lookup k d)) [
      | inl e ↦ absurd (ground arith)
      | inr (x, e) ↦ ground (arith, eq_refl k)
    ]

pub set_status-Denied :
    (k j : String) (status : GrantStatus) (d : Dict Grant)
    → is_active status ≡ false
    → Denied j d
    → Denied j (set_status k status d)
set_status-Denied k j status d h denied g at =
    let there = lookup-set_status k j status d in
    elim (Option-cases (lookup j d)) [
      | inl e ↦ absurd (ground arith)
      | inr (x, e) ↦ let old : is_active x.status ≡ false = denied x e in ground arith
    ]

suspend_each-Denied :
    (affected : Dict GrantStatus) (j : String) (d : Dict Grant)
    → Denied j d
    → Denied j (suspend_each affected d)
unfolding suspend_each
suspend_each-Denied [] j d denied = denied
suspend_each-Denied ((k, s) ∷ rest) j d denied =
    suspend_each-Denied rest j (set_status k suspended d)
      (set_status-Denied k j suspended d refl denied)

suspended-Denied :
    (affected : Dict GrantStatus) (j : String) (d : Dict Grant)
    → contains j affected ≡ true
    → Denied j (suspend_each affected d)
unfolding suspend_each
suspended-Denied [] j d h = absurd (ground arith)
suspended-Denied ((k, s) ∷ rest) j d h = elim (Bool-cases (k == j)) [
  | inl e ↦ suspend_each-Denied rest j (set_status k suspended d) (
      subst (λ i. Denied i (set_status k suspended d)) (ground (arith, eq_iff k j))
        (set_status-withdraws k suspended d refl))
  | inr e ↦ suspended-Denied rest j (set_status k suspended d) (ground arith)
]

not_active : (j : String) (d : Dict Grant) → contains j (active_statuses d) ≡ false → Denied j d
unfolding active_statuses
not_active j [] h g at = absurd (ground arith)
not_active j ((k, x) ∷ rest) h g at = elim (Bool-cases (k == j)) [
  | inl e ↦ ground arith
  | inr e ↦
      not_active j rest
        (elim (Bool-cases (is_active x.status)) [ inl v ↦ ground arith | inr v ↦ ground arith ]) g
        (ground arith)
]

pub suspend_change-Denied :
    (j : String) (d : Dict Grant) → Denied j (suspend_each (active_statuses d) d)
suspend_change-Denied j d = elim (Bool-cases (contains j (active_statuses d))) [
  | inl h ↦ suspended-Denied (active_statuses d) j d h
  | inr h ↦ suspend_each-Denied (active_statuses d) j d (not_active j d h)
]

pub ended_inactive : (status : GrantStatus) → is_ended status ≡ true → is_active status ≡ false
ended_inactive active h = absurd (ground arith)
ended_inactive suspended h = absurd (ground arith)
ended_inactive revoked h = refl
ended_inactive expired h = refl
