-- ===== src/Core/Lease/Expiry.antt =====
-- The end of a mission lease of edge_runtime/resident_core.py.
use excavator_orin_runtime.Prelude.{
  ℕ, ◌+◌, ◌*◌, ◌≡◌, refl, ◌⊎◌, inl, inr, true, false, none, some, List, [], ◌∷◌, arith, leb, ◌&&◌,
  ◌≤◌, ◌<◌, Option-cases, Bool-cases,
}
use excavator_orin_runtime.Prelude.Fault.{
  Error, ok, raised, runtime_error, value_error, lease_expired, lease_range, core_disarmed,
  Outcome-cases,
}
use excavator_orin_runtime.Sink.Requests.{is_operational}
use excavator_orin_runtime.Sink.Submit as Submit
use excavator_orin_runtime.Sink.History.Stopped.{IsStopped}
use excavator_orin_runtime.Sink.History.Started.{run_synchronized}
use excavator_orin_runtime.Core.{Core, min_mission_lease_ms, max_mission_lease_ms}
use excavator_orin_runtime.Core.Control.{
  initialize, invalidate_telemetry, stop_rl, submit_rl, renew_mission_lease, tick, terminal_disarm,
  lease_over, mission_lease_is_active,
}
use excavator_orin_runtime.Core.Calls.{
  Method, initialized, observed, invalidated, rl_activated, rl_stopped, rl_sent, act_activated,
  act_sent, worker_lost, renewed, ticked, disarmed, step, run,
}
use excavator_orin_runtime.Core.Calls.Refines.{step-By, core_disarmed_for_good}
use excavator_orin_runtime.Core.Lease.{IsSound, sink_disarms}
use excavator_orin_runtime.Core.Lease.Soundness.{
  Kept-IsSound, Kept-observe, Kept-activate_rl, Kept-activate_act, Kept-submit_act,
  Kept-worker_lost, terminal_disarm-IsSound,
}

abbrev pub without_lease : Core → Core
without_lease c = record c { lease_deadline_ns = none }

module _ (c : Core) where
  pub tick_state :
      (now : ℕ)
      → ((lease_over c.lease_deadline_ns now ≡ true)
          × ((tick now c).1 ≡ (terminal_disarm now (without_lease c)).1))
        ⊎ ((lease_over c.lease_deadline_ns now ≡ false)
            × ((tick now c).1 ≡ record c { sink = (Submit.tick now c.sink).1 }))
  unfolding tick
  tick_state now = ground arith

  pub renew_state :
      (lease now : ℕ)
      → ((renew_mission_lease lease now c).1 ≡ c)
        ⊎ ((renew_mission_lease lease now c).1 ≡ (terminal_disarm now c).1)
        ⊎ ((is_operational c.sink ≡ true)
            × ((renew_mission_lease lease now c).1
                ≡ record c { lease_deadline_ns = some (now + lease * 1000000) }))
  unfolding renew_mission_lease
  renew_state lease now = ground arith

  operational_synchronized : is_operational c.sink ≡ true → c.sink.synchronized ≡ true
  unfolding is_operational
  operational_synchronized o = ground arith

pub without_lease-IsSound : (c : Core) → IsSound c → IsSound (without_lease c)
without_lease-IsSound c v = record {
  consistent = v.consistent;
  leased = λ h. absurd (ground (arith, h));
  ended = v.ended;
}

-- Every method keeps the core sound: the sink's invariant holds, a lease is only held over a
-- synchronized sink, and a core that has a disarm's result has a disarmed sink.
pub step-IsSound : (m : Method) (c : Core) → IsSound c → IsSound (step m c)
unfolding step initialize invalidate_telemetry submit_rl stop_rl
step-IsSound (initialized f) c v =
    Kept-IsSound (step-By (initialized f) c) (record { lease = refl; result = refl }) v
step-IsSound (observed f) c v = Kept-IsSound (step-By (observed f) c) (Kept-observe c f) v
step-IsSound (invalidated now alive) c v =
    Kept-IsSound (step-By (invalidated now alive) c) (record { lease = refl; result = refl }) v
step-IsSound (rl_activated now) c v =
    Kept-IsSound (step-By (rl_activated now) c) (Kept-activate_rl c now) v
step-IsSound (rl_stopped now) c v =
    Kept-IsSound (step-By (rl_stopped now) c) (record { lease = refl; result = refl }) v
step-IsSound (rl_sent p now wall) c v =
    Kept-IsSound (step-By (rl_sent p now wall) c) (record { lease = refl; result = refl }) v
step-IsSound (act_activated steps now) c v =
    Kept-IsSound (step-By (act_activated steps now) c) (Kept-activate_act c steps now) v
step-IsSound (act_sent p now) c v =
    Kept-IsSound (step-By (act_sent p now) c) (Kept-submit_act c p now) v
step-IsSound (worker_lost now) c v =
    Kept-IsSound (step-By (worker_lost now) c) (Kept-worker_lost c now) v
step-IsSound (renewed lease now) c v = elim (renew_state c lease now) [
  | inl e ↦ rw e v
  | inr (inl e) ↦ rw e (terminal_disarm-IsSound c v now)
  | inr (inr (o, e)) ↦ rw e (record {
    consistent = v.consistent;
    leased = λ _. operational_synchronized c o;
    ended = v.ended;
  })
]
step-IsSound (ticked now) c v = elim (tick_state c now) [
  | inl (_, e) ↦ rw e (terminal_disarm-IsSound (without_lease c) (without_lease-IsSound c v) now)
  | inr (_, e) ↦
      Kept-IsSound (step-By (ticked now) c) (rw e (record { lease = refl; result = refl })) v
]
step-IsSound (disarmed now) c v = terminal_disarm-IsSound c v now

pub run-IsSound : (ms : List Method) (c : Core) → IsSound c → IsSound (run ms c)
unfolding run
run-IsSound [] c v = v
run-IsSound (m ∷ ms) c v = run-IsSound ms (step m c) (step-IsSound m c v)

module _ (c : Core) (v : IsSound c) where
  -- A disarm of the core disarms a synchronized sink, at its first call and at any other.
  core_disarms :
      (now : ℕ) → c.sink.synchronized ≡ true → (terminal_disarm now c).1.sink.disarmed ≡ true
  unfolding terminal_disarm
  core_disarms now i = elim (Option-cases c.disarm_result) [
    | inl e ↦ ground (arith, sink_disarms now c.sink v.consistent i)
    | inr (r, e) ↦ ground (arith, v.ended)
  ]

  lease_held : (now : ℕ) → lease_over c.lease_deadline_ns now ≡ true → c.sink.synchronized ≡ true
  lease_held now l = elim (Option-cases c.lease_deadline_ns) [
    | inl e ↦ ground arith
    | inr (d, e) ↦ v.leased (ground arith)
  ]

tick_disarms :
    (c : Core) (now : ℕ)
    → IsSound c
    → lease_over c.lease_deadline_ns now ≡ true
    → (tick now c).1.sink.disarmed ≡ true
tick_disarms c now v l = elim (tick_state c now) [
  | inl (_, e) ↦
      rw e (core_disarms (without_lease c) (without_lease-IsSound c v) now (lease_held c v now l))
  | inr (n, _) ↦ ground arith
]

inactive : (later : ℕ) (c : Core) → c.sink.disarmed ≡ true → mission_lease_is_active later c ≡ false
unfolding mission_lease_is_active is_operational
inactive later c d = ground arith

ticked_synchronized :
    (c : Core) (now : ℕ) → c.sink.synchronized ≡ true → (tick now c).1.sink.synchronized ≡ true
unfolding step
ticked_synchronized c now i =
    let b = step-By (ticked now) c in rw b.result (run_synchronized b.calls c.sink i)

-- Once the mission lease of a sound core is over, its next tick ends the mission: whatever is
-- called afterwards, the port gets nothing more, the authority changes no more, the sink stays
-- disarmed, and at no later time is a lease active.
pub lease_expiry_is_final :
    (c : Core) (now : ℕ) (ms : List Method) (later : ℕ)
    → IsSound c
    → lease_over c.lease_deadline_ns now ≡ true
    → let c' = (tick now c).1 in
      IsStopped c'.sink (run ms c').sink × (mission_lease_is_active later (run ms c') ≡ false)
unfolding step
lease_expiry_is_final c now ms later v l =
    let stopped =
      core_disarmed_for_good ms (tick now c).1 (ticked_synchronized c now (lease_held c v now l))
        (tick_disarms c now v l) in
    (stopped, inactive later (run ms (tick now c).1) stopped.disarmed)

-- A renewal has four outcomes. A length within [500, 5000] ms, on an operational sink whose lease,
-- if any, has not run out at that time, sets the deadline to that many milliseconds after now and
-- changes nothing else. Any other length, and a sink that is not operational, are refused without
-- an effect, also where a lease has run out. With a length in that range and an operational sink, a
-- lease that has run out is not extended: the call raises and disarms the core.
pub renewal_lem :
    (c : Core) (lease now : ℕ)
    → let r = (renew_mission_lease lease now c).0 in
      let c' = (renew_mission_lease lease now c).1 in
      ((r ≡ ok tt)
        × (min_mission_lease_ms ≤ lease)
        × (lease ≤ max_mission_lease_ms)
        × (is_operational c.sink ≡ true)
        × (lease_over c.lease_deadline_ns now ≡ false)
        × (c' ≡ record c { lease_deadline_ns = some (now + lease * 1000000) }))
      ⊎ ((r ≡ raised (value_error lease_range))
          × ((lease < min_mission_lease_ms) ⊎ (max_mission_lease_ms < lease))
          × (c' ≡ c))
      ⊎ ((r ≡ raised (runtime_error core_disarmed)) × (is_operational c.sink ≡ false) × (c' ≡ c))
      ⊎ ((e : Error) × (r ≡ raised e)
          × (min_mission_lease_ms ≤ lease)
          × (lease ≤ max_mission_lease_ms)
          × (is_operational c.sink ≡ true)
          × (lease_over c.lease_deadline_ns now ≡ true)
          × (c' ≡ (terminal_disarm now c).1))
unfolding renew_mission_lease
renewal_lem c lease now =
    elim (Bool-cases (leb min_mission_lease_ms lease && leb lease max_mission_lease_ms)) [
      | inr a ↦ inr (inl (ground arith, ground arith, ground arith))
      | inl a ↦ elim (Bool-cases (is_operational c.sink)) [
        | inr o ↦ inr (inr (inl (ground arith, o, ground arith)))
        | inl o ↦ elim (Bool-cases (lease_over c.lease_deadline_ns now)) [
          | inr l ↦ inl (ground arith, ground arith, ground arith, o, l, ground arith)
          | inl l ↦ elim (Outcome-cases (terminal_disarm now c).0) [
            | inl (w, h) ↦ inr (
                inr (
                  inr (
                    runtime_error lease_expired,
                    ground arith,
                    ground arith,
                    ground arith,
                    o,
                    l,
                    ground arith,
                  )))
            | inr (e, h) ↦
                inr (inr (inr (e, ground arith, ground arith, ground arith, o, l, ground arith)))
          ]
        ]
      ]
    ]
