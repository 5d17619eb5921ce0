-- ===== src/Hardware/Estop/Sequence.antt =====
-- The order of the callbacks of a trip in hardware/estop.py, and what its report counts.
use threshold_node.Base.{
  eqb, if◌then◌else◌, Option-cases, length, ℕ, suc, ◌+◌, ◌≤◌, ◌≡◌, refl, ◌∙◌, ◌↔◌, ◌⊎◌, inl, inr,
  Bool, true, ◌&&◌, Option, none, some, List, [], ◌∷◌, ◌++◌, map, append-nil, append_assoc,
  map-append, arith,
}
use threshold_node.Hardware.Estop.{
  InterlockState, armed, tripped, TripNotice, persistence_succeeded, TripReport, Durable, count,
  no_count, raised, Environment, Call, call_monotonic, call_utc, call_display, call_halt,
  call_durable, call_receipt, Interlock, call, safe_utc, observed, attempts, persisted,
  persist_failures, halt_each, call_if, call_durable_at, trip,
}

-- How many adapters complete their halt.
pub completed : List Bool → ℕ
completed [] = 0
completed (ends ∷ rest) = if ends then suc (completed rest) else completed rest

unfoldable pub halts : List Bool → List Call
halts [] = []
halts (ends ∷ rest) = call_halt ∷ halts rest

-- The one call of a callback that is configured.
abbrev pub once {ℓ} : {A : Type ℓ} → Option A → Call → List Call
once none c = []
once (some a) c = c ∷ []

abbrev pub durable_once : Option ℕ → List Call
durable_once none = []
durable_once (some t) = call_durable t ∷ []

-- What a trip's receipt observer is told: the report's own figures.
pub notice_of : {F : Type 0} → TripReport F → TripNotice
notice_of r = record {
  tripped_at = r.tripped_at;
  persistence_succeeded = persistence_succeeded r;
  suspended_grants = r.suspended_grants;
  adapter_attempts = r.adapter_attempts;
  adapter_completions = r.adapter_completions;
  adapter_failures = r.adapter_failures;
}

abbrev pub seen_tripped : List Call → List (Call × InterlockState)
seen_tripped = map (λ c. (c, tripped))

module _ {F : Type 0} where
  halt_each_lem :
      (ends : List Bool) (a d : ℕ) (s : Interlock F)
      → s.state ≡ tripped
      → halt_each ends a d s ≡ (
        record s { calls = s.calls ++ seen_tripped (halts ends) },
        a + length ends,
        d + completed ends,
      )
  unfolding halt_each halts completed call
  halt_each_lem [] a d s t = ground (arith, append-nil s.calls)
  halt_each_lem (e ∷ ends) a d s t =
      let s' = call call_halt s in
      let rest = halt_each_lem ends (a + 1) (if e then d + 1 else d) s' t in
      let joined = append_assoc s.calls ((call_halt, s.state) ∷ []) (seen_tripped (halts ends)) in
      rest ∙ ground (arith, joined)

  call_if_lem {ℓ} :
      {A : Type ℓ} (o : Option A) (c : Call) (s : Interlock F)
      → s.state ≡ tripped
      → call_if o c s ≡ record s { calls = s.calls ++ seen_tripped (once o c) }
  unfolding call_if call
  call_if_lem none c s t = ground (arith, append-nil s.calls)
  call_if_lem (some a) c s t = ground arith

  call_durable_at_lem :
      (o : Option ℕ) (s : Interlock F)
      → s.state ≡ tripped
      → call_durable_at o s ≡ record s { calls = s.calls ++ seen_tripped (durable_once o) }
  unfolding call_durable_at call
  call_durable_at_lem none s t = ground (arith, append-nil s.calls)
  call_durable_at_lem (some a) s t = ground arith

completed-le : (ends : List Bool) → completed ends ≤ length ends
unfolding completed
completed-le [] = omega arith
completed-le (e ∷ ends) = ground (arith, completed-le ends)

Durable-cases : (d : Durable) → ((n : ℕ) × (d ≡ count n)) ⊎ (observed d ≡ none)
Durable-cases (count n) = inl (n, refl)
Durable-cases no_count = inr refl
Durable-cases raised = inr refl

persisted_lem :
    (durable_trip : ℕ → Durable) (at : Option ℕ)
    → (eqb (attempts at) 1 && eqb (persist_failures at (persisted durable_trip at)) 0 ≡ true) ↔ (
        (t : ℕ) × (n : ℕ) × (at ≡ some t)
        × (durable_trip t ≡ count n)
        × (persisted durable_trip at ≡ some n))
unfolding persisted persist_failures
persisted_lem durable_trip none = (λ h. absurd (ground arith), λ h. absurd (ground arith))
persisted_lem durable_trip (some t) = elim (Durable-cases (durable_trip t)) [
  | inl (n, e) ↦ (λ h. (t, n, refl, e, ground arith), λ h. ground arith)
  | inr e ↦ (λ h. absurd (ground arith), λ h. absurd (ground arith))
]

module _ {F : Type 0} (before : F → F → Bool) (elapsed_between : F → F → F) where
  -- The calls of a trip on an armed latch, in order: both clocks, the display, the durable callback
  -- if the UTC clock could be read, every adapter, the receipt observer, and the monotonic clock.
  unfoldable pub sequence : Environment F → TripReport F → List Call
  unfolding notice_of persistence_succeeded
  sequence env r =
      (call_monotonic ∷ call_utc ∷ [])
      ++ (once env.display call_display
          ++ (durable_once (safe_utc env.utc_clock)
              ++ (halts env.adapters
                  ++ (once env.receipt (call_receipt (notice_of r)) ++ (call_monotonic ∷ [])))))

  -- For callbacks that return or raise an Exception, and do not call the interlock back, a trip on an
  -- armed latch makes the following calls, in this order and no other, each of them with the latch
  -- already TRIPPED, and leaves the latch TRIPPED: the monotonic clock; the UTC clock; the display, if
  -- one is configured; the durable callback, exactly when the UTC clock gave an aware time; every
  -- adapter; the receipt observer, if one is configured, with the figures of the report; and the
  -- monotonic clock again.
  pub trip_calls :
      (env : Environment F) (s : Interlock F)
      → s.state ≡ armed
      → let (s', r) = trip before elapsed_between env s in
        (s'.calls ≡ s.calls ++ seen_tripped (sequence env r)) × (s'.state ≡ tripped)
  unfolding trip sequence
  trip_calls env s a =
      let s2 = call call_utc (call call_monotonic (record s { state = tripped })) in
      let s3 = record s2 { calls = s2.calls ++ seen_tripped (once env.display call_display) } in
      let at = safe_utc env.utc_clock in
      let s4 = record s3 { calls = s3.calls ++ seen_tripped (durable_once at) } in
      rw
        (
          a,
          call_if_lem env.display call_display s2 refl,
          call_durable_at_lem at s3 refl,
          halt_each_lem env.adapters 0 0 s4 refl,
        )
        (elim (Option-cases env.receipt) [
          | inl e ↦ rw e (simp (map-append, append_assoc) (refl, refl))
          | inr (f, e) ↦ rw e (simp (map-append, append_assoc) (refl, refl))
        ])

  -- The report of a trip on an armed latch counts every configured adapter as attempted, splits
  -- them into those that completed and those that failed, and claims that persistence succeeded
  -- exactly when the UTC clock could be read and the durable callback returned a count, which is
  -- then the count of suspended grants.
  pub trip_report :
      (env : Environment F) (s : Interlock F)
      → s.state ≡ armed
      → let r = (trip before elapsed_between env s).1 in
        (r.adapter_attempts ≡ length env.adapters)
        × (r.adapter_completions ≡ completed env.adapters)
        × (r.adapter_failures + r.adapter_completions ≡ r.adapter_attempts)
        × ((persistence_succeeded r ≡ true) ↔ (
            (t : ℕ) × (n : ℕ) × (safe_utc env.utc_clock ≡ some t)
            × (env.durable_trip t ≡ count n)
            × (r.suspended_grants ≡ some n)))
  unfolding trip persistence_succeeded
  trip_report env s a =
      let s2 = call call_utc (call call_monotonic (record s { state = tripped })) in
      let s3 = record s2 { calls = s2.calls ++ seen_tripped (once env.display call_display) } in
      let at = safe_utc env.utc_clock in
      let s4 = record s3 { calls = s3.calls ++ seen_tripped (durable_once at) } in
      rw
        (
          a,
          call_if_lem env.display call_display s2 refl,
          call_durable_at_lem at s3 refl,
          halt_each_lem env.adapters 0 0 s4 refl,
        )
        (
          omega arith,
          omega arith,
          omega (arith, completed-le env.adapters),
          persisted_lem env.durable_trip at,
        )
