-- ===== src/Sink/Wire/Requests.antt =====
-- What the handoff, stop and disarm methods of edge_runtime/resident_sink.py hand to the port.
use excavator_orin_runtime.Prelude.{ℕ, ◌≡◌, refl, inl, inr, false, Option, none, some}
use excavator_orin_runtime.Motion.{ControlMode, zero_action, PolicyBinding}
use excavator_orin_runtime.Motion.Authority.{Reason, terminal_disarm as terminal_disarm_reason}
use excavator_orin_runtime.Commands.{Frame}
use excavator_orin_runtime.Commands.Codec.{frame_action}
use excavator_orin_runtime.Sink.{Sink}
use excavator_orin_runtime.Sink.Writes.{cancel_measurement, issue_pending_zero, revoke_for_safety}
use excavator_orin_runtime.Sink.Requests.{
  request_handoff, request_stop, request_source_stop, terminal_disarm, last_mode, last_zero,
}
use excavator_orin_runtime.Sink.Requests.States.{
  handoff_state, stop_state, disarm_state, request_handoff_state, request_stop_state,
  request_source_stop_state, revoke_for_safety_state, terminal_disarm_state,
}
use excavator_orin_runtime.Sink.Wire.{
  Extends, Extends-refl, Extends-same, Extends-trans, zero-Extends, issue_pending_zero-Extends,
}

module _ (Q : Frame → Type 0) (zero_ok : (f : Frame) → frame_action f ≡ zero_action → Q f) where
  pub issue-stop_state-Extends :
      (now : ℕ) (r : Option Reason) (s : Sink)
      → Extends Q s (issue_pending_zero now r (stop_state now s)).1
  unfolding stop_state
  issue-stop_state-Extends now r s =
      Extends-trans Q (Extends-same Q s (stop_state now s) refl refl)
        (issue_pending_zero-Extends Q zero_ok now r (stop_state now s))

  pub revoke_for_safety-Extends :
      (now : ℕ) (r : Reason) (s : Sink) → Extends Q s (revoke_for_safety now r s).1
  revoke_for_safety-Extends now r s =
      rw (revoke_for_safety_state now s r) (issue-stop_state-Extends now (some r) s)

  pub request_handoff-Extends :
      (b : PolicyBinding) (now : ℕ) (s : Sink) → Extends Q s (request_handoff b now s).1
  unfolding handoff_state
  request_handoff-Extends b now s = elim (request_handoff_state now s b) [
    | inl e ↦ rw e (Extends-refl Q s)
    | inr (inl e) ↦ rw e (Extends-same Q s (cancel_measurement s) refl refl)
    | inr (inr (_, _, e)) ↦ rw e (
        Extends-trans Q (Extends-same Q s (handoff_state b now s) refl refl)
          (issue_pending_zero-Extends Q zero_ok now none (handoff_state b now s)))
  ]

  pub request_stop-Extends : (now : ℕ) (s : Sink) → Extends Q s (request_stop now s).1
  request_stop-Extends now s = elim (request_stop_state now s) [
    | inl e ↦ rw e (Extends-refl Q s)
    | inr (_, _, e) ↦ rw e (issue-stop_state-Extends now none s)
  ]

  pub request_source_stop-Extends :
      (b : PolicyBinding) (generation now : ℕ) (s : Sink)
      → Extends Q s (request_source_stop b generation now s).1
  request_source_stop-Extends b generation now s =
      elim (request_source_stop_state now s b generation) [
        | inl e ↦ rw e (Extends-refl Q s)
        | inr (_, _, e) ↦ rw e (issue-stop_state-Extends now none s)
      ]

  last_zero-Extends :
      (now : ℕ) (m : Option ControlMode) (s : Sink) → Extends Q s (last_zero now m s).1
  unfolding last_zero
  last_zero-Extends now none s = Extends-refl Q s
  last_zero-Extends now (some m) s = zero-Extends Q zero_ok m now terminal_disarm_reason false s

  disarm_state-Extends : (now : ℕ) (s : Sink) → Extends Q s (disarm_state now s)
  unfolding disarm_state stop_state
  disarm_state-Extends now s = Extends-same Q s (disarm_state now s) refl refl

  pub terminal_disarm-Extends : (now : ℕ) (s : Sink) → Extends Q s (terminal_disarm now s).1
  terminal_disarm-Extends now s = elim (terminal_disarm_state now s) [
    | inl e ↦ rw e (Extends-refl Q s)
    | inr (_, _, e) ↦ rw e (
        Extends-trans Q (disarm_state-Extends now s)
          (last_zero-Extends now (last_mode s) (disarm_state now s)))
  ]
