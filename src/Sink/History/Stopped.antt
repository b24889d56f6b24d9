-- ===== src/Sink/History/Stopped.antt =====
-- The sink of edge_runtime/resident_sink.py after a disarm or a fault, under any calls.
use excavator_orin_runtime.Prelude.{◌≡◌, refl, inl, inr, true, List, [], ◌∷◌, arith}
use excavator_orin_runtime.Sink.{Sink, Telemetry}
use excavator_orin_runtime.Sink.Requests.{
  initialize, request_handoff, request_stop, request_source_stop, terminal_disarm,
}
use excavator_orin_runtime.Sink.Observe.{observe_locked}
use excavator_orin_runtime.Sink.Observe.States.{
  observe_telemetry_state, observe_locked_state, audited-Untouched, invalidate_telemetry_state,
  invalid_row,
}
use excavator_orin_runtime.Sink.Submit.{submit_candidate, tick}
use excavator_orin_runtime.Sink.History.{
  Method, initialized, observed, invalidated, handed_off, stopped, ticked, disarmed, source_stopped,
  submitted, step, run,
}

-- Stopped for good, with this much on the wire.
pub record IsStopped (s s' : Sink) : Type 0 where
  pub port : s'.port ≡ s.port
  pub encoder : s'.encoder ≡ s.encoder
  pub authority : s'.authority ≡ s.authority
  pub synchronized : s'.synchronized ≡ true
  pub disarmed : s'.disarmed ≡ true

module _ (s0 : Sink) where
  observe_locked-IsStopped :
      (f : Telemetry) (s : Sink) → IsStopped s0 s → IsStopped s0 (observe_locked f s).1
  observe_locked-IsStopped f s h = elim (observe_locked_state f s) [
    | inl e ↦ rw e h
    | inr (_, inl e) ↦ rw e (ground (arith, audited-Untouched f s))
    | inr (_, inr (d, e)) ↦ absurd (ground (arith, audited-Untouched f s))
  ]

  step-IsStopped : (m : Method) (s : Sink) → IsStopped s0 s → IsStopped s0 (step m s)
  unfolding step initialize request_handoff request_stop request_source_stop terminal_disarm tick
      submit_candidate
  step-IsStopped (initialized f) s h = ground arith
  step-IsStopped (observed f) s h = elim (observe_telemetry_state f s) [
    | inl e ↦ rw e h
    | inr (_, e) ↦ rw e (observe_locked-IsStopped f s h)
  ]
  step-IsStopped (invalidated now alive) s h = elim (invalidate_telemetry_state now alive s) [
    | inl e ↦ rw e h
    | inr (_, f, e) ↦ rw e (observe_locked-IsStopped (invalid_row f now alive) s h)
  ]
  step-IsStopped (handed_off b now) s h = ground arith
  step-IsStopped (stopped now) s h = ground arith
  step-IsStopped (ticked now) s h = ground arith
  step-IsStopped (disarmed now) s h = ground arith
  step-IsStopped (source_stopped b generation now) s h = ground arith
  step-IsStopped (submitted c now) s h = ground arith

  run-IsStopped : (ms : List Method) (s : Sink) → IsStopped s0 s → IsStopped s0 (run ms s)
  unfolding run
  run-IsStopped [] s h = h
  run-IsStopped (m ∷ ms) s h = run-IsStopped ms (step m s) (step-IsStopped m s h)

-- Once a synchronized sink is disarmed, by a disarm or by the fault of a write (which disarms),
-- whatever is called afterwards, nothing more is handed to the port, the authority stays as it
-- was, and the sink stays disarmed.
pub disarmed_for_good :
    (ms : List Method) (s : Sink)
    → s.synchronized ≡ true
    → s.disarmed ≡ true
    → IsStopped s (run ms s)
disarmed_for_good ms s i d =
    run-IsStopped s ms s
      (record { port = refl; encoder = refl; authority = refl; synchronized = i; disarmed = d })
