-- ===== src/Core/Calls/Refines.antt =====
-- The methods of edge_runtime/resident_core.py's core, and those of its sink.
use excavator_orin_runtime.Prelude.{
  ◌≡◌, refl, ◌∙◌, ap, sym, inl, inr, List, [], ◌∷◌, ◌++◌, strip, true,
}
use excavator_orin_runtime.Sink.Consistency.{IsConsistent}
use excavator_orin_runtime.Sink.History as History
use excavator_orin_runtime.Sink.History.{run-IsConsistent}
use excavator_orin_runtime.Sink.History.Stopped.{IsStopped, disarmed_for_good}
use excavator_orin_runtime.Core.{Core, rl_binding, act_binding}
use excavator_orin_runtime.Core.Control.{initialize, invalidate_telemetry, submit_rl, stop_rl}
use excavator_orin_runtime.Core.Calls.{
  Method, initialized, observed, invalidated, rl_activated, rl_stopped, rl_sent, act_activated,
  act_sent, worker_lost, renewed, ticked, disarmed, step, run, initializes, observes, completes,
  invalidates, hands_to_rl, stops_rl, submits_rl, revokes_rl, hands_to_act, submits_act,
  revokes_act, loses_worker, lease_disarms, ticks, tick_disarms, disarms, By, By-none, By-one,
  By-trans, run-append,
}
use excavator_orin_runtime.Core.Calls.Seats.{
  request_stop_sink, velocity_send_sink, candidate_send_sink,
}
use excavator_orin_runtime.Core.Calls.Methods.{
  rl_seat, act_seat, activation-By, observe_telemetry_sink, activate_rl_sink, activate_act_sink,
  submit_act_sink, worker_lost_sink, terminal_disarm_sink, renew_sink, tick_sink,
}

-- Every method of the core changes the sink by calls of the sink's own public methods, and by
-- those alone that `Makes` allows it: only the two sends submit candidates, RL's under RL's own
-- source and mode and ACT's as decoded from its payload, and only a renewal, a tick or a disarm
-- calls the sink's disarm.
pub step-By : (m : Method) (c : Core) → By m c.sink (step m c).sink
unfolding step History.step initialize invalidate_telemetry submit_rl stop_rl strip
step-By (initialized f) c =
    By-one (initialized f) c.sink _ (History.initialized f) (initializes f) refl
step-By (observed f) c =
    let m = observed f in
    let first = By-one m c.sink _ (History.observed f) (observes f) refl in
    elim (observe_telemetry_sink c f) [
      | inl e ↦ rw e first
      | inr e ↦ rw e (
          By-trans first (
            activation-By m rl_binding f.receive_ns (record { adapter = c.rl; sink = _ })
              (completes f)))
    ]
step-By (invalidated now alive) c =
    By-one (invalidated now alive) c.sink _ (History.invalidated now alive) (invalidates now alive)
      refl
step-By (rl_activated now) c =
    rw (activate_rl_sink c now)
      (activation-By (rl_activated now) rl_binding now (rl_seat c) (hands_to_rl now))
step-By (rl_stopped now) c = elim (request_stop_sink rl_binding now (rl_seat c)) [
  | inl e ↦ rw e (By-none (rl_stopped now) c.sink)
  | inr (g, e) ↦
      By-one (rl_stopped now) c.sink _ (History.source_stopped rl_binding g now) (stops_rl g now) e
]
step-By (rl_sent p now wall) c = elim (velocity_send_sink rl_binding p now wall (rl_seat c)) [
  | inl e ↦ rw e (By-none (rl_sent p now wall) c.sink)
  | inr (inl (g, e)) ↦
      By-one (rl_sent p now wall) c.sink _ (History.source_stopped rl_binding g now)
        (revokes_rl p now wall g) e
  | inr (inr (x, source, mode, e)) ↦
      By-one (rl_sent p now wall) c.sink _ (History.submitted x now)
        (submits_rl p now wall x source mode) e
]
step-By (act_activated steps now) c = elim (activate_act_sink c steps now) [
  | inl e ↦ rw e (By-none (act_activated steps now) c.sink)
  | inr e ↦ rw e (
      activation-By (act_activated steps now) act_binding now (act_seat c) (hands_to_act steps now))
]
step-By (act_sent p now) c = elim (submit_act_sink c p now) [
  | inl e ↦ rw e (By-none (act_sent p now) c.sink)
  | inr e ↦ rw e (elim (candidate_send_sink act_binding p now (act_seat c)) [
    | inl f ↦ rw f (By-none (act_sent p now) c.sink)
    | inr (inl (g, f)) ↦
        By-one (act_sent p now) c.sink _ (History.source_stopped act_binding g now)
          (revokes_act p now g) f
    | inr (inr (x, d, f)) ↦
        By-one (act_sent p now) c.sink _ (History.submitted x now) (submits_act p now x d) f
  ])
]
step-By (worker_lost now) c = elim (worker_lost_sink c now) [
  | inl e ↦ rw e (By-none (worker_lost now) c.sink)
  | inr (g, e) ↦
      By-one (worker_lost now) c.sink _ (History.source_stopped act_binding g now)
        (loses_worker now g) e
]
step-By (renewed lease now) c = elim (renew_sink c lease now) [
  | inl e ↦ rw e (By-none (renewed lease now) c.sink)
  | inr e ↦ By-one (renewed lease now) c.sink _ (History.disarmed now) (lease_disarms lease now) e
]
step-By (ticked now) c = elim (tick_sink c now) [
  | inl e ↦ rw e (By-none (ticked now) c.sink)
  | inr (inl e) ↦ By-one (ticked now) c.sink _ (History.disarmed now) (tick_disarms now) e
  | inr (inr e) ↦ By-one (ticked now) c.sink _ (History.ticked now) (ticks now) e
]
step-By (disarmed now) c = elim (terminal_disarm_sink c now) [
  | inl e ↦ rw e (By-none (disarmed now) c.sink)
  | inr e ↦ By-one (disarmed now) c.sink _ (History.disarmed now) (disarms now) e
]

-- The sink's history under a history of the core.
pub run_calls :
    (ms : List Method) (c : Core)
    → (ks : List History.Method) × ((run ms c).sink ≡ History.run ks c.sink)
unfolding run History.run
run_calls [] c = ([], refl)
run_calls (m ∷ ms) c =
    let b = step-By m c in
    let (ks, e) = run_calls ms (step m c) in
    (b.calls ++ ks, e ∙ ap (History.run ks) b.result ∙ sym (run-append b.calls ks c.sink))

-- Whatever is called on the core, in whatever order, its sink keeps its invariant.
pub run-sink-IsConsistent :
    (ms : List Method) (c : Core) → IsConsistent c.sink → IsConsistent (run ms c).sink
run-sink-IsConsistent ms c v = let (ks, e) = run_calls ms c in rw e (run-IsConsistent ks c.sink v)

-- Once the core's sink is disarmed, no method of the core hands anything more to the port,
-- changes the authority or arms the sink again.
pub core_disarmed_for_good :
    (ms : List Method) (c : Core)
    → c.sink.synchronized ≡ true
    → c.sink.disarmed ≡ true
    → IsStopped c.sink (run ms c).sink
core_disarmed_for_good ms c i d =
    let (ks, e) = run_calls ms c in rw e (disarmed_for_good ks c.sink i d)
