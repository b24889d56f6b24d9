-- ===== src/Sink/History/Started.antt =====
-- The sink of edge_runtime/resident_sink.py and its synchronization, under any calls.
use excavator_orin_runtime.Prelude.{
  ℕ, ◌≡◌, refl, ◌∙◌, inl, inr, Bool, true, false, Option, none, some, List, [], ◌∷◌, arith,
}
use excavator_orin_runtime.Motion.{ControlMode, Action, zero_action, PolicyBinding, MotionCandidate}
use excavator_orin_runtime.Motion.Authority.{
  Reason, RoutedCommand, active_policy_idle_keepalive, state_watchdog, safety_rejected,
  candidate_lease_expired, unsafe_telemetry, terminal_disarm as terminal_disarm_reason,
}
use excavator_orin_runtime.Sink.{Sink, Telemetry, CandidateLease, WriteResult}
use excavator_orin_runtime.Sink.Writes.{write_locked, issue_pending_zero, revoke_for_safety}
use excavator_orin_runtime.Sink.Writes.Effects.{write_locked_effect, issue_pending_zero-SameInput}
use excavator_orin_runtime.Sink.Requests.{initialize, last_zero, last_mode}
use excavator_orin_runtime.Sink.Requests.States.{
  handoff_state, stop_state, disarm_state, request_handoff_state, request_stop_state,
  request_source_stop_state, revoke_for_safety_state, terminal_disarm_state,
}
use excavator_orin_runtime.Sink.Observe.{observe_locked, settle, check_safety}
use excavator_orin_runtime.Sink.Observe.States.{
  observe_telemetry_state, observe_locked_state, audited, audited-Untouched,
  invalidate_telemetry_state, invalid_row, settle_state, settle_zero-SameInput,
  settle_first_nonzero-SameInput, check_safety_state, after_zero, after_first,
}
use excavator_orin_runtime.Sink.Submit.{
  watch, decision, write_decision, after_write, keep_motion, drop_lease,
}
use excavator_orin_runtime.Sink.Submit.States.{
  dropped, write_decision_state, submit_candidate_state, watch_state, tick_state,
  expire_lease_state,
}
use excavator_orin_runtime.Sink.History.{
  Method, initialized, observed, invalidated, handed_off, stopped, ticked, disarmed, source_stopped,
  submitted, step, run,
}

abbrev Keeps : Sink → Sink → Type 0
Keeps s s' = s'.synchronized ≡ s.synchronized

write_locked-Keeps :
    (m : ControlMode) (a : Action) (now : ℕ) (r : Reason) (acc : Bool) (s : Sink)
    → Keeps s (write_locked m a now r acc s).1
write_locked-Keeps m a now r acc s = elim (write_locked_effect m a now r acc s) [
  | inl (_, same, _) ↦ same.synchronized
  | inr (_, _, halted) ↦ halted.synchronized
]

stop-Keeps :
    (now : ℕ) (reason : Option Reason) (s : Sink)
    → Keeps s (issue_pending_zero now reason (stop_state now s)).1
unfolding stop_state
stop-Keeps now reason s = (issue_pending_zero-SameInput now reason (stop_state now s)).synchronized

revoke-Keeps : (now : ℕ) (r : Reason) (s : Sink) → Keeps s (revoke_for_safety now r s).1
revoke-Keeps now r s = rw (revoke_for_safety_state now s r) (stop-Keeps now (some r) s)

check_safety-Keeps :
    (b : Option PolicyBinding) (f : Telemetry) (s : Sink) → Keeps s (check_safety b f s).1
check_safety-Keeps b f s = elim (check_safety_state f s b) [
  | inl e ↦ rw e refl
  | inr (inl e) ↦ rw e refl
  | inr (inr e) ↦ rw e (revoke-Keeps f.receive_ns unsafe_telemetry s)
]

settle-Keeps : (f : Telemetry) (s : Sink) → Keeps s (settle f s).1
settle-Keeps f s =
    let s1 = after_zero f s in
    let s2 = after_first f s in
    let z = (settle_zero-SameInput s.pending_ack f s).synchronized in
    let n = (settle_first_nonzero-SameInput s1.first_nonzero f s1).synchronized ∙ z in
    elim (settle_state f s) [
      | inl e ↦ rw e z
      | inr (inl e) ↦ rw e n
      | inr (inr e) ↦ rw e (check_safety-Keeps s2.authority.active_binding f s2 ∙ n)
    ]

observe_locked-Keeps : (f : Telemetry) (s : Sink) → Keeps s (observe_locked f s).1
observe_locked-Keeps f s =
    let u = (audited-Untouched f s).synchronized in
    elim (observe_locked_state f s) [
      | inl e ↦ rw e refl
      | inr (_, inl e) ↦ rw e u
      | inr (_, inr (_, e)) ↦ rw e (settle-Keeps f (audited f s) ∙ u)
    ]

after_write-Keeps :
    (c : MotionCandidate) (d : RoutedCommand) (r : WriteResult) (now : ℕ) (s : Sink)
    → Keeps s (after_write c d r now s).1
unfolding after_write keep_motion drop_lease
after_write-Keeps c d r now s = ground arith

write_decision-Keeps :
    (c : MotionCandidate) (d : RoutedCommand) (m : ControlMode) (now : ℕ) (s : Sink)
    → Keeps s (write_decision c d m now s).1
write_decision-Keeps c d m now s =
    let s1 = (write_locked m d.effective_action now d.reason d.is_accepted s).1 in
    let w = write_locked-Keeps m d.effective_action now d.reason d.is_accepted s in
    elim (write_decision_state c d m now s) [
      | inl e ↦ rw e w
      | inr (r, _, inl e) ↦ rw e (after_write-Keeps c d r now s1 ∙ w)
      | inr (r, _, inr e) ↦ rw e (after_write-Keeps c d r now s1 ∙ w)
    ]

watch-Keeps :
    (l : Option CandidateLease) (b : Option PolicyBinding) (now : ℕ) (s : Sink)
    → Keeps s (watch l b now s).1
watch-Keeps l b now s = elim (watch_state now s l b) [
  | inl e ↦ rw e refl
  | inr (inl e) ↦ rw e (revoke-Keeps now state_watchdog s)
  | inr (inr (x, _, e)) ↦
      rw e (write_locked-Keeps x.mode zero_action now active_policy_idle_keepalive false s)
]

last_zero-Keeps : (now : ℕ) (m : Option ControlMode) (s : Sink) → Keeps s (last_zero now m s).1
unfolding last_zero
last_zero-Keeps now none s = refl
last_zero-Keeps now (some m) s = write_locked-Keeps m zero_action now terminal_disarm_reason false s

initialize_starts :
    (f : Telemetry) (s : Sink) → s.synchronized ≡ true → (initialize f s).1.synchronized ≡ true
unfolding initialize
initialize_starts f s i = ground arith

handoff-Keeps :
    (b : PolicyBinding) (now : ℕ) (s : Sink)
    → Keeps s (issue_pending_zero now none (handoff_state b now s)).1
unfolding handoff_state
handoff-Keeps b now s = (issue_pending_zero-SameInput now none (handoff_state b now s)).synchronized

disarm-Keeps :
    (now : ℕ) (m : Option ControlMode) (s : Sink) → Keeps s (last_zero now m (disarm_state now s)).1
unfolding disarm_state stop_state
disarm-Keeps now m s = last_zero-Keeps now m (disarm_state now s)

pub step_synchronized :
    (m : Method) (s : Sink) → s.synchronized ≡ true → (step m s).synchronized ≡ true
unfolding step
step_synchronized (initialized f) s i = initialize_starts f s i
step_synchronized (observed f) s i = elim (observe_telemetry_state f s) [
  | inl e ↦ rw e i
  | inr (_, e) ↦ rw e (observe_locked-Keeps f s ∙ i)
]
step_synchronized (invalidated now alive) s i = elim (invalidate_telemetry_state now alive s) [
  | inl e ↦ rw e i
  | inr (_, f, e) ↦ rw e (observe_locked-Keeps (invalid_row f now alive) s ∙ i)
]
step_synchronized (handed_off b now) s i = elim (request_handoff_state now s b) [
  | inl e ↦ rw e i
  | inr (inl e) ↦ rw e i
  | inr (inr (_, _, e)) ↦ rw e (handoff-Keeps b now s ∙ i)
]
step_synchronized (stopped now) s i = elim (request_stop_state now s) [
  | inl e ↦ rw e i
  | inr (_, _, e) ↦ rw e (stop-Keeps now none s ∙ i)
]
step_synchronized (source_stopped b g now) s i = elim (request_source_stop_state now s b g) [
  | inl e ↦ rw e i
  | inr (_, _, e) ↦ rw e (stop-Keeps now none s ∙ i)
]
step_synchronized (disarmed now) s i = elim (terminal_disarm_state now s) [
  | inl e ↦ rw e i
  | inr (_, _, e) ↦ rw e (disarm-Keeps now (last_mode s) s ∙ i)
]
step_synchronized (submitted c now) s i = elim (submit_candidate_state now s c) [
  | inl e ↦ rw e i
  | inr (inl (_, _, e)) ↦ rw e (revoke-Keeps now safety_rejected s ∙ i)
  | inr (inr (m, _, _, e)) ↦ rw e (write_decision-Keeps c (decision s c now) m now s ∙ i)
]
step_synchronized (ticked now) s i = elim (tick_state now s) [
  | inl e ↦ rw e i
  | inr (_, _, inl e) ↦
      rw (e, expire_lease_state now s) (stop-Keeps now (some candidate_lease_expired) s ∙ i)
  | inr (_, _, inr (inl e)) ↦
      rw e (watch-Keeps s.candidate_lease s.authority.active_binding now s ∙ i)
  | inr (_, _, inr (inr e)) ↦
      rw e (watch-Keeps s.candidate_lease s.authority.active_binding now (dropped s) ∙ i)
]

pub run_synchronized :
    (ms : List Method) (s : Sink) → s.synchronized ≡ true → (run ms s).synchronized ≡ true
unfolding run
run_synchronized [] s i = i
run_synchronized (m ∷ ms) s i = run_synchronized ms (step m s) (step_synchronized m s i)
