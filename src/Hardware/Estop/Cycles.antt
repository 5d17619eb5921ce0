-- ===== src/Hardware/Estop/Cycles.antt =====
-- Latch cycles of hardware/estop.py: repeated trips, re-arming, and any sequence of the two.
use threshold_node.Hardware.Estop.{
  InterlockState, armed, tripped, is_tripped, TripReport, Environment, Call, call_durable,
  Interlock, empty_tripped_report, again, trip, rearm,
}
use threshold_node.Base.{
  if◌then◌else◌, Option-cases, ℕ, suc, ◌+◌, ◌≤◌, ◌≡◌, refl, ap, ◌⊎◌, inl, inr, Bool, true, false,
  some, List, [], ◌∷◌, ◌++◌, map-append, arith,
}
use threshold_node.Hardware.Estop.Sequence.{halts, seen_tripped, sequence, trip_calls}

-- The calls of the durable callback.
abbrev pub is_durable : Call → Bool
is_durable (call_durable t) = true
is_durable _ = false

pub durables : List (Call × InterlockState) → ℕ
durables [] = 0
durables ((c, latch) ∷ rest) = if is_durable c then suc (durables rest) else durables rest

durables-append :
    (xs ys : List (Call × InterlockState)) → durables (xs ++ ys) ≡ durables xs + durables ys
unfolding durables
durables-append [] ys = omega arith
durables-append ((c, latch) ∷ rest) ys = ground (arith, durables-append rest ys)

durables-halts : (ends : List Bool) → durables (seen_tripped (halts ends)) ≡ 0
unfolding durables halts
durables-halts [] = refl
durables-halts (e ∷ ends) = durables-halts ends

State-cases : (x : InterlockState) → (x ≡ armed) ⊎ (x ≡ tripped)
State-cases armed = inl refl
State-cases tripped = inr refl

module _ {F : Type 0} (before : F → F → Bool) (elapsed_between : F → F → F) where
  trip_tripped :
      (env : Environment F) (s : Interlock F) (r : TripReport F)
      → s.state ≡ tripped
      → s.last_report ≡ some r
      → trip before elapsed_between env s ≡ (s, record r { newly_tripped = false })
  unfolding trip
  trip_tripped env s r t e = rw (t, e)

  trip-last_report :
      (env : Environment F) (s : Interlock F)
      → s.state ≡ armed
      → let (s', r) = trip before elapsed_between env s in s'.last_report ≡ some r
  unfolding trip
  trip-last_report env s a = rw a

  -- A second trip, in any environment, calls nothing and changes nothing, and returns the report of
  -- the first one marked as no new trip.
  pub trip_again :
      (env env' : Environment F) (s : Interlock F)
      → s.state ≡ armed
      → let (s', r) = trip before elapsed_between env s in
        trip before elapsed_between env' s' ≡ (s', record r { newly_tripped = false })
  trip_again env env' s a =
      let (s', r) = trip before elapsed_between env s in
      trip_tripped env' s' r (trip_calls before elapsed_between env s a).1
        (trip-last_report env s a)

  pub trip_not_new :
      (env : Environment F) (s : Interlock F)
      → is_tripped s.state ≡ true
      → (trip before elapsed_between env s).1.newly_tripped ≡ false
  unfolding trip again empty_tripped_report
  trip_not_new env s h = elim (Option-cases s.last_report) [
    | inl e ↦ ground arith
    | inr (r, e) ↦ ground arith
  ]

  durables-sequence :
      (env : Environment F) (r : TripReport F)
      → durables (seen_tripped (sequence before elapsed_between env r)) ≤ 1
  unfolding sequence durables
  durables-sequence env r = simp (map-append, durables-append, durables-halts) (ground arith)

  pub data Command : Type 0 where
    trip_in : Environment F → Command
    rearm_now : Command

  pub run : List Command → Interlock F → Interlock F
  run [] s = s
  run (trip_in env ∷ rest) s = run rest (trip before elapsed_between env s).0
  run (rearm_now ∷ rest) s = run rest (rearm s).0

  -- The re-arms that clear a latch.
  pub rearms : List Command → Interlock F → ℕ
  rearms [] s = 0
  rearms (trip_in env ∷ rest) s = rearms rest (trip before elapsed_between env s).0
  rearms (rearm_now ∷ rest) s =
      if (rearm s).1 then suc (rearms rest (rearm s).0) else rearms rest (rearm s).0

  abbrev open_cycle : InterlockState → ℕ
  open_cycle armed = 1
  open_cycle tripped = 0

  trip-durables :
      (env : Environment F) (s : Interlock F)
      → let s' = (trip before elapsed_between env s).0 in
        (durables s'.calls ≤ durables s.calls + open_cycle s.state) × (s'.state ≡ tripped)
  trip-durables env s = elim (State-cases s.state) [
    | inl a ↦
        let (calls, t) = trip_calls before elapsed_between env s a in
        let r = (trip before elapsed_between env s).1 in
        let opens : open_cycle s.state ≡ 1 = rw a in
        (
          omega (
            arith,
            ap durables calls,
            durables-append s.calls (seen_tripped (sequence before elapsed_between env r)),
            opens,
            durables-sequence env r,
          ),
          t,
        )
    | inr t ↦ unfold trip in rw t (omega arith, refl)
  ]

  -- Over any sequence of trips and re-arms from any latch, with callbacks that return or raise as
  -- they like, the durable callback runs at most once for each latch cycle: at most once for each
  -- re-arm that clears a latch, and once more if the sequence starts armed.
  pub run-durables :
      (commands : List Command) (s : Interlock F)
      → durables (run commands s).calls ≤ durables s.calls + open_cycle s.state + rearms commands s
  unfolding run rearms rearm
  run-durables [] s = omega arith
  run-durables (trip_in env ∷ rest) s =
      let s' = (trip before elapsed_between env s).0 in
      let (le, t) = trip-durables env s in
      let closed : open_cycle s'.state ≡ 0 = rw t in omega (arith, le, closed, run-durables rest s')
  run-durables (rearm_now ∷ rest) s = ground (arith, run-durables rest (record s { state = armed }))
