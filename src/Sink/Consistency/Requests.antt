-- ===== src/Sink/Consistency/Requests.antt =====
-- The handoff, stop and disarm methods of edge_runtime/resident_sink.py and the invariant.
use excavator_orin_runtime.Prelude.{
  ℕ, ◌≡◌, refl, ◌∙◌, inl, inr, Bool, true, false, Option, none, some, arith,
}
use excavator_orin_runtime.Motion.{ControlMode, Action, zero_action, PolicyBinding}
use excavator_orin_runtime.Motion.Authority as A
use excavator_orin_runtime.Motion.Authority.{Authority, PendingZero, Reason, terminal_disarm}
use excavator_orin_runtime.Motion.Authority.Coherence.{
  request_handoff-IsCoherent, request_stop-IsCoherent,
}
use excavator_orin_runtime.Commands.{synchronize}
use excavator_orin_runtime.Sink.{Telemetry, Sink, PortOutcome, new_sink}
use excavator_orin_runtime.Sink.Writes.{
  cancel_measurement, issue_pending_zero, revoke_for_safety, write_locked,
}
use excavator_orin_runtime.Sink.Writes.Effects.{write_locked_effect}
use excavator_orin_runtime.Sink.Requests.{
  request_handoff, request_stop, request_source_stop, terminal_disarm as disarm, initialize,
  last_mode, last_zero,
}
use excavator_orin_runtime.Sink.Requests.States.{
  handoff_state, stop_state, disarm_state, request_handoff_state, request_stop_state,
  request_source_stop_state, revoke_for_safety_state, terminal_disarm_state,
}
use excavator_orin_runtime.Sink.Consistency.{IsConsistent, IsReady, issue_pending_zero-IsConsistent}

pub new_sink-IsConsistent :
    (age skew : ℕ) (id : _) (outcomes : ℕ → PortOutcome)
    → IsConsistent (new_sink age skew id outcomes)
unfolding new_sink A.pending_zero
new_sink-IsConsistent age skew id outcomes = ground arith

module _ (s : Sink) (v : IsConsistent s) where
  pub initialize-IsConsistent : (frame : Telemetry) → IsConsistent (initialize frame s).1
  unfolding initialize synchronize
  initialize-IsConsistent frame = ground arith

  handoff_state-IsReady :
      (b : PolicyBinding) (now : ℕ)
      → s.synchronized ≡ true
      → s.disarmed ≡ false
      → IsReady (handoff_state b now s)
  unfolding handoff_state
  handoff_state-IsReady b now i d =
      ground (arith, request_handoff-IsCoherent s.authority b now v.coherent)

  pub stop_state-IsReady : (now : ℕ) → s.synchronized ≡ true → IsReady (stop_state now s)
  unfolding stop_state
  stop_state-IsReady now i = ground (arith, request_stop-IsCoherent s.authority now v.coherent)

  -- A stop with its zero, whatever the reason of the write.
  pub issue-stop_state-IsConsistent :
      (now : ℕ) (r : Option Reason)
      → s.synchronized ≡ true
      → IsConsistent (issue_pending_zero now r (stop_state now s)).1
  issue-stop_state-IsConsistent now r i =
      issue_pending_zero-IsConsistent now r (stop_state now s) (stop_state-IsReady now i)

  cancelled-IsConsistent : IsConsistent (cancel_measurement s)
  cancelled-IsConsistent = ground arith

  pub request_handoff-IsConsistent :
      (b : PolicyBinding) (now : ℕ) → IsConsistent (request_handoff b now s).1
  request_handoff-IsConsistent b now = elim (request_handoff_state now s b) [
    | inl e ↦ rw e v
    | inr (inl e) ↦ rw e cancelled-IsConsistent
    | inr (inr (i, d, e)) ↦ rw e (
        issue_pending_zero-IsConsistent now none (handoff_state b now s)
          (handoff_state-IsReady b now i d))
  ]

  pub request_stop-IsConsistent : (now : ℕ) → IsConsistent (request_stop now s).1
  request_stop-IsConsistent now = elim (request_stop_state now s) [
    | inl e ↦ rw e v
    | inr (i, d, e) ↦ rw e (issue-stop_state-IsConsistent now none i)
  ]

  pub request_source_stop-IsConsistent :
      (b : PolicyBinding) (generation now : ℕ)
      → IsConsistent (request_source_stop b generation now s).1
  request_source_stop-IsConsistent b generation now =
      elim (request_source_stop_state now s b generation) [
        | inl e ↦ rw e v
        | inr (i, d, e) ↦ rw e (issue-stop_state-IsConsistent now none i)
      ]

  pub revoke_for_safety-IsConsistent :
      (now : ℕ) (r : Reason) → s.synchronized ≡ true → IsConsistent (revoke_for_safety now r s).1
  revoke_for_safety-IsConsistent now r i =
      rw (revoke_for_safety_state now s r) (issue-stop_state-IsConsistent now (some r) i)

  disarm_state-IsConsistent : (now : ℕ) → s.synchronized ≡ true → IsConsistent (disarm_state now s)
  unfolding disarm_state stop_state
  disarm_state-IsConsistent now i =
      ground (arith, request_stop-IsCoherent s.authority now v.coherent)

-- A write keeps the invariant.
pub write_locked-IsConsistent :
    (m : ControlMode) (a : Action) (now : ℕ) (r : Reason) (acc : Bool) (s : Sink)
    → s.synchronized ≡ true
    → IsConsistent s
    → IsConsistent (write_locked m a now r acc s).1
write_locked-IsConsistent m a now r acc s i v = elim (write_locked_effect m a now r acc s) [
  | inl (w, same, p) ↦ ground arith
  | inr (e, w, halted) ↦ ground arith
]

last_zero-IsConsistent :
    (now : ℕ) (m : Option ControlMode) (s : Sink)
    → s.synchronized ≡ true
    → IsConsistent s
    → IsConsistent (last_zero now m s).1
unfolding last_zero
last_zero-IsConsistent now none s i v = v
last_zero-IsConsistent now (some m) s i v =
    write_locked-IsConsistent m zero_action now terminal_disarm false s i v

disarm_state_synchronized :
    (now : ℕ) (s : Sink) → (disarm_state now s).synchronized ≡ s.synchronized
unfolding disarm_state stop_state
disarm_state_synchronized now s = refl

pub terminal_disarm-IsConsistent :
    (s : Sink) (v : IsConsistent s) (now : ℕ) → IsConsistent (disarm now s).1
terminal_disarm-IsConsistent s v now = elim (terminal_disarm_state now s) [
  | inl e ↦ rw e v
  | inr (i, d, e) ↦ rw e (
      last_zero-IsConsistent now (last_mode s) (disarm_state now s)
        (disarm_state_synchronized now s ∙ i) (disarm_state-IsConsistent s v now i))
]
