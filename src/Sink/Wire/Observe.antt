-- ===== src/Sink/Wire/Observe.antt =====
-- What the telemetry methods of edge_runtime/resident_sink.py hand to the port.
use excavator_orin_runtime.Prelude.{
  ℕ, ◌≡◌, refl, inl, inr, Bool, false, Option, none, some, Bool-cases,
}
use excavator_orin_runtime.Motion.{zero_action, PolicyBinding}
use excavator_orin_runtime.Motion.Authority as A
use excavator_orin_runtime.Motion.Authority.{unsafe_telemetry}
use excavator_orin_runtime.Commands.{Frame}
use excavator_orin_runtime.Commands.Codec.{frame_action}
use excavator_orin_runtime.Sink.{Sink, Telemetry, PendingAck, FirstNonzero}
use excavator_orin_runtime.Sink.Observe.{
  settle_zero, take_ack, reissue, ack_matches, settle_first_nonzero, check_safety, settle,
  observe_locked, observe_telemetry, invalidate_telemetry,
}
use excavator_orin_runtime.Sink.Observe.States.{
  acknowledged, take_ack_state, reissue_either, first_nonzero_port, after_zero, after_first,
  settle_state, check_safety_state, audited, audited-Untouched, observe_locked_state,
  observe_telemetry_state, invalid_row, invalidate_telemetry_state,
}
use excavator_orin_runtime.Sink.Wire.{
  Extends, Extends-refl, Extends-same, Extends-trans, issue_pending_zero-Extends,
}
use excavator_orin_runtime.Sink.Wire.Requests.{revoke_for_safety-Extends}

module _ (Q : Frame → Type 0) (zero_ok : (f : Frame) → frame_action f ≡ zero_action → Q f) where
  reissue-Extends : (now : ℕ) (s : Sink) → Extends Q s (reissue now s).1
  reissue-Extends now s = elim (reissue_either now s) [
    | inl e ↦ rw e (Extends-refl Q s)
    | inr e ↦ rw e (issue_pending_zero-Extends Q zero_ok now none s)
  ]

  take_ack-Extends :
      (p : PendingAck) (frame : Telemetry) (s : Sink) → Extends Q s (take_ack p frame s).1
  take_ack-Extends p frame s =
      let a = (A.acknowledge_zero p.generation p.mode zero_action frame.receive_ns s.authority).1 in
      elim (take_ack_state p frame s) [
        | inl (x, _, e) ↦ rw e (Extends-same Q s (record s { authority = a }) refl refl)
        | inr (_, e) ↦ rw e (
            Extends-trans Q (Extends-same Q s (acknowledged a p frame s) refl refl)
              (reissue-Extends frame.receive_ns (acknowledged a p frame s)))
      ]

  settle_zero-Extends :
      (o : Option PendingAck) (frame : Telemetry) (s : Sink) → Extends Q s (settle_zero o frame s).1
  unfolding settle_zero
  settle_zero-Extends none frame s = Extends-refl Q s
  settle_zero-Extends (some p) frame s = elim (Bool-cases (ack_matches s p frame)) [
    | inl m ↦ rw m (take_ack-Extends p frame s)
    | inr m ↦ rw m (Extends-refl Q s)
  ]

  settle_first_nonzero-Extends :
      (o : Option FirstNonzero) (frame : Telemetry) (s : Sink)
      → Extends Q s (settle_first_nonzero o frame s).1
  settle_first_nonzero-Extends o frame s =
      let (p, e) = first_nonzero_port o frame s in
      Extends-same Q s (settle_first_nonzero o frame s).1 p e

  check_safety-Extends :
      (b : Option PolicyBinding) (frame : Telemetry) (s : Sink)
      → Extends Q s (check_safety b frame s).1
  check_safety-Extends b frame s = elim (check_safety_state frame s b) [
    | inl e ↦ rw e (Extends-refl Q s)
    | inr (inl e) ↦ rw e (Extends-same Q s (record s { unsafe_zero_latched = false }) refl refl)
    | inr (inr e) ↦ rw e (revoke_for_safety-Extends Q zero_ok frame.receive_ns unsafe_telemetry s)
  ]

  settle-Extends : (frame : Telemetry) (s : Sink) → Extends Q s (settle frame s).1
  settle-Extends frame s =
      let s1 = after_zero frame s in
      let s2 = after_first frame s in
      let z = settle_zero-Extends s.pending_ack frame s in
      let f = Extends-trans Q z (settle_first_nonzero-Extends s1.first_nonzero frame s1) in
      elim (settle_state frame s) [
        | inl e ↦ rw e z
        | inr (inl e) ↦ rw e f
        | inr (inr e) ↦
            rw e (Extends-trans Q f (check_safety-Extends s2.authority.active_binding frame s2))
      ]

  audited-Extends : (frame : Telemetry) (s : Sink) → Extends Q s (audited frame s)
  audited-Extends frame s =
      let u = audited-Untouched frame s in Extends-same Q s (audited frame s) u.port u.encoder

  observe_locked-Extends : (frame : Telemetry) (s : Sink) → Extends Q s (observe_locked frame s).1
  observe_locked-Extends frame s = elim (observe_locked_state frame s) [
    | inl e ↦ rw e (Extends-refl Q s)
    | inr (_, inl e) ↦ rw e (audited-Extends frame s)
    | inr (_, inr (_, e)) ↦
        rw e (Extends-trans Q (audited-Extends frame s) (settle-Extends frame (audited frame s)))
  ]

  pub observe_telemetry-Extends :
      (frame : Telemetry) (s : Sink) → Extends Q s (observe_telemetry frame s).1
  observe_telemetry-Extends frame s = elim (observe_telemetry_state frame s) [
    | inl e ↦ rw e (Extends-refl Q s)
    | inr (_, e) ↦ rw e (observe_locked-Extends frame s)
  ]

  pub invalidate_telemetry-Extends :
      (now : ℕ) (alive : Bool) (s : Sink) → Extends Q s (invalidate_telemetry now alive s).1
  invalidate_telemetry-Extends now alive s = elim (invalidate_telemetry_state now alive s) [
    | inl e ↦ rw e (Extends-refl Q s)
    | inr (_, f, e) ↦ rw e (observe_locked-Extends (invalid_row f now alive) s)
  ]
