-- ===== src/Grants/Manager/Decisions.antt =====
-- What `GrantManager.decision` decides, against a description of a usable grant.
use threshold_node.Base.{
  Bool-cases, ok, Result-cases, ℕ, ◌≤◌, ◌<◌, ◌≡◌, refl, ◌↔◌, ◌⊎◌, inl, inr, true, Option, none,
  some, List, arith, ◌==◌, eq_iff,
}
use threshold_node.Core.Types.{GrantStatus, active, expired, Grant}
use threshold_node.Core.Timestamp.{Moment, not_a_datetime, naive, aware}
use threshold_node.Grants.Manager.{
  normalize_time, parse_timestamp, parse_window, expire_now, in_window, before_expiry, at_time,
  decision,
}

module _ (fromisoformat : List ℕ → Option Moment) where
  -- Revocable, or its expiry is a timestamp after `t`.
  abbrev pub Unexpired : Grant → ℕ → Type 0
  Unexpired g t =
      (g.expires ≡ "revocable")
      ⊎ ((e : ℕ) × (parse_timestamp fromisoformat g.expires ≡ ok e) × (t < e))

  -- Standing, or its window holds `t`: the start belongs to it, the end does not.
  abbrev pub InWindow : Grant → ℕ → Type 0
  InWindow g t =
      (parse_window fromisoformat g.window ≡ ok none)
      ⊎ ((s : ℕ) × (e : ℕ) × (parse_window fromisoformat g.window ≡ ok (some (s, e)))
          × (s ≤ t)
          × (t < e))

  abbrev pub Usable : Grant → ℕ → Type 0
  Usable g t = (g.status ≡ active) × Unexpired g t × InWindow g t

  module _ (utc_now : ℕ) where
    window_allows :
        (g : Grant) (t : ℕ)
        → ((in_window t (parse_window fromisoformat g.window)).allowed ≡ true) ↔ InWindow g t
    unfolding in_window
    window_allows g t = elim (Result-cases (parse_window fromisoformat g.window)) [
      | inl (none, e) ↦ (λ h. inl e, λ h. rw e refl)
      | inl (some (s, n), e) ↦ (λ h. inr (s, n, e, ground arith, ground arith), λ h. ground arith)
      | inr (x, e) ↦ (λ h. absurd (ground arith), λ h. absurd (ground arith))
    ]

    -- A decision allows a grant at the instant `t` exactly when the grant is active, is revocable
    -- or has an expiry timestamp after `t`, and is standing or has a window that holds `t`.
    pub decision-allowed_iff :
        (g : Grant) (t : ℕ)
        → ((decision fromisoformat utc_now g (some (aware t))).allowed ≡ true) ↔ Usable g t
    unfolding decision
    decision-allowed_iff g t = elim (Bool-cases (g.expires == "revocable")) [
      | inl r ↦ ground (arith, window_allows g t, eq_iff g.expires "revocable")
      | inr n ↦ elim (Result-cases (parse_timestamp fromisoformat g.expires)) [
        | inl (e, p) ↦ ground (arith, window_allows g t, eq_iff g.expires "revocable")
        | inr (x, p) ↦ ground (arith, window_allows g t, eq_iff g.expires "revocable")
      ]
    ]

    -- Without an aware clock no grant is allowed.
    pub decision_clock :
        (g : Grant) (now : Moment)
        → (decision fromisoformat utc_now g (some now)).allowed ≡ true
        → (t : ℕ) × (now ≡ aware t)
    unfolding decision
    decision_clock g not_a_datetime h = absurd (ground arith)
    decision_clock g naive h = absurd (ground arith)
    decision_clock g (aware t) h = (t, refl)

    -- Expiry is final: a decision that finds a grant expired at one instant finds it expired at
    -- every later instant.
    pub decision-expired_mono :
        (g : Grant) (t u : ℕ)
        → t ≤ u
        → (decision fromisoformat utc_now g (some (aware t))).next_status ≡ some expired
        → decision fromisoformat utc_now g (some (aware u)) ≡ expire_now
    unfolding decision
    decision-expired_mono g t u le h = ground arith

-- A decision that names a next status refuses.
pub due_refuses :
    (fromisoformat : List ℕ → Option Moment) (utc_now : ℕ) (g : Grant) (now : Option Moment)
    → (decision fromisoformat utc_now g now).allowed ≡ true
    → (decision fromisoformat utc_now g now).next_status ≡ none
unfolding decision at_time in_window before_expiry normalize_time
due_refuses fromisoformat utc_now g now h = ground arith

-- The only status that a decision asks for is `expired`.
pub next_expired :
    (fromisoformat : List ℕ → Option Moment) (utc_now : ℕ) (g : Grant) (now : Option Moment)
    (s : GrantStatus)
    → (decision fromisoformat utc_now g now).next_status ≡ some s
    → s ≡ expired
unfolding decision at_time in_window before_expiry normalize_time
next_expired fromisoformat utc_now g now s h = ground arith
