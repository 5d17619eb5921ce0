-- ===== src/Hardware/Display/Latch.antt =====
-- The states of hardware/display.py over time.
use threshold_node.Core.Timestamp.{Moment, aware}
use threshold_node.Hardware.Display.{
  max_display_grants, DisplayError, armed_mode, read_mode, tripped_mode, DisplayFrame, DisplayState,
  utc, grant_count, sanitize_agent, on_read, on_deny, trip_display, rearm_display, visible, frame,
}
use threshold_node.Base.{
  ltb, leb, if◌then◌else◌, le→leb, any, Result, ok, err, Result-cases, ℕ, ◌+◌, ◌≤◌, ◌≡◌, inl, inr,
  Bool, true, false, ◌&&◌, Option, none, some, List, [], ◌∷◌, arith,
}

-- The calls that change a display, and their effect; a call that raises leaves the state.
pub data Event : Type 0 where
  read_shown deny_shown : Option (List ℕ) → Moment → Event
  trip_shown rearm_shown : Event

abbrev pub or_same : DisplayState → Result DisplayError DisplayState → DisplayState
or_same s (ok s') = s'
or_same s (err e) = s

abbrev pub is_rearm : Event → Bool
is_rearm rearm_shown = true
is_rearm _ = false

module _ (nfkc : List ℕ → List ℕ) (is_space is_control : ℕ → Bool) where
  pub apply : Event → DisplayState → DisplayState
  apply (read_shown agent now) s = or_same s (on_read nfkc is_space is_control agent now s)
  apply (deny_shown agent now) s = or_same s (on_deny nfkc is_space is_control agent now s)
  apply trip_shown s = trip_display s
  apply rearm_shown s = rearm_display s

  pub apply_all : List Event → DisplayState → DisplayState
  unfolding apply
  apply_all [] s = s
  apply_all (e ∷ es) s = apply_all es (apply e s)

  apply-tripped :
      (e : Event) (s : DisplayState)
      → is_rearm e ≡ false
      → s.tripped ≡ true
      → (apply e s).tripped ≡ true
  unfolding apply on_read on_deny trip_display
  apply-tripped (read_shown agent now) s h t = ground arith
  apply-tripped (deny_shown agent now) s h t = ground arith
  apply-tripped trip_shown s h t = ground arith
  apply-tripped rearm_shown s h t = cc

  apply_all-tripped :
      (es : List Event) (s : DisplayState)
      → any is_rearm es ≡ false
      → s.tripped ≡ true
      → (apply_all es s).tripped ≡ true
  unfolding apply_all
  apply_all-tripped [] s h t = t
  apply_all-tripped (e ∷ es) s h t =
      apply_all-tripped es (apply e s) (ground arith) (apply-tripped e s (ground arith) t)

  -- Once tripped, whatever reads, denials and trips follow, with any agents and clocks, the frame
  -- at every aware clock is TRIPPED with the count it is given and no agent, until a re-arm.
  pub tripped_until_rearm :
      (es : List Event) (s : DisplayState) (n t : ℕ)
      → any is_rearm es ≡ false
      → n ≤ max_display_grants
      → frame (some n) (aware t) (apply_all es (trip_display s))
        ≡ ok (record { mode = tripped_mode; active_grants = n; agent = none })
  unfolding frame
  tripped_until_rearm es s n t h le =
      let tripped_first : (trip_display s).tripped ≡ true = unfold trip_display in ground arith in
      ground (
        arith,
        apply_all-tripped es (trip_display s) h tripped_first,
        le→leb n max_display_grants le,
      )

  -- On a display that is not tripped a read at `t` is shown from `t` on and for less than two
  -- seconds, with the sanitized agent; before and after that the frame is ARMED.
  pub frame-on_read :
      (s s' : DisplayState) (agent : Option (List ℕ)) (t u n : ℕ)
      → s.tripped ≡ false
      → on_read nfkc is_space is_control agent (aware t) s ≡ ok s'
      → n ≤ max_display_grants
      → frame (some n) (aware u) s'
        ≡ ok (
            if leb t u && ltb u (t + 2000000)
            then record {
              mode = read_mode;
              active_grants = n;
              agent = some (sanitize_agent nfkc is_space is_control agent);
            }
            else record { mode = armed_mode; active_grants = n; agent = none })
  unfolding on_read frame
  frame-on_read s s' agent t u n clear shown le = ground (arith, le→leb n max_display_grants le)

-- A frame of a tripped display shows its latch.
pub frame_tripped :
    (active_grants : Option ℕ) (now : Moment) (s : DisplayState) (f : DisplayFrame)
    → s.tripped ≡ true
    → frame active_grants now s ≡ ok f
    → f.mode ≡ tripped_mode
unfolding frame visible
frame_tripped active_grants now s f latched h = elim (Result-cases (grant_count active_grants)) [
  | inr (e, r) ↦ absurd (ground arith)
  | inl (n, r) ↦ elim (Result-cases (utc now)) [
    | inr (e, u) ↦ absurd (ground arith)
    | inl (t, u) ↦ ground arith
  ]
]
