-- ===== src/Sink/History/Generations.antt =====
-- The generation of the authority under the calls on edge_runtime/resident_sink.py's sink.
use excavator_orin_runtime.Prelude.{
  ℕ, ◌≤◌, ◌≡◌, refl, ◌∙◌, inl, inr, Bool, false, Option, none, some, List, [], ◌∷◌, arith,
  Bool-cases,
}
use excavator_orin_runtime.Motion.{ControlMode, Action, zero_action, PolicyBinding, MotionCandidate}
use excavator_orin_runtime.Motion.Authority as A
use excavator_orin_runtime.Motion.Authority.Calls as Calls
use excavator_orin_runtime.Motion.Authority.Calls.{step-generation}
use excavator_orin_runtime.Motion.Authority.{
  Reason, RoutedCommand, active_policy_idle_keepalive, state_watchdog, safety_rejected,
  candidate_lease_expired, unsafe_telemetry, terminal_disarm as terminal_disarm_reason,
}
use excavator_orin_runtime.Sink.{
  Sink, Telemetry, CandidateLease, WriteResult, PendingAck, FirstNonzero,
}
use excavator_orin_runtime.Sink.Writes.{
  write_locked, issue_pending_zero, revoke_for_safety, reason_or,
}
use excavator_orin_runtime.Sink.Writes.Effects.{write_locked_effect}
use excavator_orin_runtime.Sink.Writes.States.{issue_pending_zero_state}
use excavator_orin_runtime.Sink.Requests.{initialize, last_zero, last_mode}
use excavator_orin_runtime.Sink.Requests.States.{
  handoff_state, stop_state, disarm_state, request_handoff_state, request_stop_state,
  request_source_stop_state, revoke_for_safety_state, terminal_disarm_state,
}
use excavator_orin_runtime.Sink.Observe.{
  observe_locked, settle, check_safety, take_ack, settle_zero, settle_first_nonzero, ack_matches,
  first_nonzero_matches, reissue,
}
use excavator_orin_runtime.Sink.Observe.First.{take_first_nonzero_state}
use excavator_orin_runtime.Sink.Observe.States.{
  observe_telemetry_state, observe_locked_state, audited, audited-Untouched,
  invalidate_telemetry_state, invalid_row, settle_state, check_safety_state, after_zero,
  after_first, take_ack_state, reissue_either, acknowledged,
}
use excavator_orin_runtime.Sink.Submit.{
  watch, decision, write_decision, after_write, keep_motion, drop_lease,
}
use excavator_orin_runtime.Sink.Submit.States.{
  dropped, write_decision_state, submit_candidate_state, watch_state, tick_state,
  expire_lease_state,
}
use excavator_orin_runtime.Sink.History.{
  Method, initialized, observed, invalidated, handed_off, stopped, ticked, disarmed, source_stopped,
  submitted, step, run,
}

abbrev pub Grows : Sink → Sink → Type 0
Grows s s' = s.authority.generation ≤ s'.authority.generation

Grows-same : (s s' : Sink) → s'.authority ≡ s.authority → Grows s s'
Grows-same s s' e = rw e (omega arith)

Grows-trans : (s t u : Sink) → Grows s t → Grows t u → Grows s u
Grows-trans s t u a b = omega (arith, a, b)

-- A write leaves the authority alone, and so does the issue of a zero.
pub write_locked-authority :
    (m : ControlMode) (a : Action) (now : ℕ) (r : Reason) (acc : Bool) (s : Sink)
    → (write_locked m a now r acc s).1.authority ≡ s.authority
write_locked-authority m a now r acc s = elim (write_locked_effect m a now r acc s) [
  | inl (_, same, _) ↦ same.authority
  | inr (_, _, halted) ↦ halted.authority
]

pub issue_pending_zero-authority :
    (now : ℕ) (reason : Option Reason) (s : Sink)
    → (issue_pending_zero now reason s).1.authority ≡ s.authority
issue_pending_zero-authority now reason s = elim (issue_pending_zero_state reason now s) [
  | inl e ↦ rw e refl
  | inr (inl e) ↦ rw e refl
  | inr (inr (z, inl e)) ↦
      rw e (write_locked-authority z.mode zero_action now (reason_or reason z.purpose) false s)
  | inr (inr (z, inr (_, e))) ↦
      rw e (write_locked-authority z.mode zero_action now (reason_or reason z.purpose) false s)
]

stop-Grows :
    (now : ℕ) (reason : Option Reason) (s : Sink)
    → Grows s (issue_pending_zero now reason (stop_state now s)).1
unfolding stop_state Calls.step
stop-Grows now reason s =
    rw (issue_pending_zero-authority now reason (stop_state now s))
      ((step-generation (Calls.stop now) s.authority).0)

handoff-Grows :
    (b : PolicyBinding) (now : ℕ) (s : Sink)
    → Grows s (issue_pending_zero now none (handoff_state b now s)).1
unfolding handoff_state Calls.step
handoff-Grows b now s =
    rw (issue_pending_zero-authority now none (handoff_state b now s))
      ((step-generation (Calls.handoff b now) s.authority).0)

revoke-Grows : (now : ℕ) (r : Reason) (s : Sink) → Grows s (revoke_for_safety now r s).1
revoke-Grows now r s = rw (revoke_for_safety_state now s r) (stop-Grows now (some r) s)

last_zero-Grows : (now : ℕ) (m : Option ControlMode) (s : Sink) → Grows s (last_zero now m s).1
unfolding last_zero
last_zero-Grows now none s = omega arith
last_zero-Grows now (some m) s =
    Grows-same s (write_locked m zero_action now terminal_disarm_reason false s).1
      (write_locked-authority m zero_action now terminal_disarm_reason false s)

disarm-Grows :
    (now : ℕ) (m : Option ControlMode) (s : Sink) → Grows s (last_zero now m (disarm_state now s)).1
unfolding disarm_state stop_state Calls.step
disarm-Grows now m s = omega (
  arith,
  step-generation (Calls.stop now) s.authority,
  last_zero-Grows now m (disarm_state now s),
)

reissue-Grows : (now : ℕ) (s : Sink) → Grows s (reissue now s).1
reissue-Grows now s = elim (reissue_either now s) [
  | inl e ↦ rw e (omega arith)
  | inr e ↦
      rw e
        (Grows-same s (issue_pending_zero now none s).1 (issue_pending_zero-authority now none s))
]

take_ack-Grows : (p : PendingAck) (f : Telemetry) (s : Sink) → Grows s (take_ack p f s).1
unfolding Calls.step
take_ack-Grows p f s =
    let a = (A.acknowledge_zero p.generation p.mode zero_action f.receive_ns s.authority).1 in
    let g =
      step-generation (Calls.acknowledge p.generation p.mode zero_action f.receive_ns)
        s.authority in
    elim (take_ack_state p f s) [
      | inl (_, _, e) ↦ rw e g.0
      | inr (_, e) ↦ rw e (omega (arith, g, reissue-Grows f.receive_ns (acknowledged a p f s)))
    ]

settle_zero-Grows :
    (o : Option PendingAck) (f : Telemetry) (s : Sink) → Grows s (settle_zero o f s).1
unfolding settle_zero
settle_zero-Grows none f s = omega arith
settle_zero-Grows (some p) f s = elim (Bool-cases (ack_matches s p f)) [
  | inl m ↦ rw m (take_ack-Grows p f s)
  | inr m ↦ rw m (omega arith)
]

settle_first-Grows :
    (o : Option FirstNonzero) (f : Telemetry) (s : Sink) → Grows s (settle_first_nonzero o f s).1
unfolding settle_first_nonzero
settle_first-Grows none f s = omega arith
settle_first-Grows (some p) f s = elim (Bool-cases (first_nonzero_matches p f)) [
  | inr m ↦ rw m (omega arith)
  | inl m ↦ rw m (elim (take_first_nonzero_state p f s) [
    | inl e ↦ rw e (omega arith)
    | inr (_, inl e) ↦ rw e (omega arith)
    | inr (_, inr (_, e)) ↦ rw e (omega arith)
  ])
]

check_safety-Grows :
    (b : Option PolicyBinding) (f : Telemetry) (s : Sink) → Grows s (check_safety b f s).1
check_safety-Grows b f s = elim (check_safety_state f s b) [
  | inl e ↦ rw e (omega arith)
  | inr (inl e) ↦ rw e (omega arith)
  | inr (inr e) ↦ rw e (revoke-Grows f.receive_ns unsafe_telemetry s)
]

settle-Grows : (f : Telemetry) (s : Sink) → Grows s (settle f s).1
settle-Grows f s =
    let s1 = after_zero f s in
    let s2 = after_first f s in
    let z = settle_zero-Grows s.pending_ack f s in
    let n = Grows-trans s s1 s2 z (settle_first-Grows s1.first_nonzero f s1) in
    elim (settle_state f s) [
      | inl e ↦ rw e z
      | inr (inl e) ↦ rw e n
      | inr (inr e) ↦ rw e (
          Grows-trans s s2 (check_safety s2.authority.active_binding f s2).1 n
            (check_safety-Grows s2.authority.active_binding f s2))
    ]

observe_locked-Grows : (f : Telemetry) (s : Sink) → Grows s (observe_locked f s).1
observe_locked-Grows f s =
    let u = Grows-same s (audited f s) (audited-Untouched f s).authority in
    elim (observe_locked_state f s) [
      | inl e ↦ rw e (omega arith)
      | inr (_, inl e) ↦ rw e u
      | inr (_, inr (_, e)) ↦
          rw e (
            Grows-trans s (audited f s) (settle f (audited f s)).1 u (settle-Grows f (audited f s)))
    ]

after_write-authority :
    (c : MotionCandidate) (d : RoutedCommand) (r : WriteResult) (now : ℕ) (s : Sink)
    → (after_write c d r now s).1.authority ≡ s.authority
unfolding after_write keep_motion drop_lease
after_write-authority c d r now s = ground arith

pub write_decision-authority :
    (c : MotionCandidate) (d : RoutedCommand) (m : ControlMode) (now : ℕ) (s : Sink)
    → (write_decision c d m now s).1.authority ≡ s.authority
write_decision-authority c d m now s =
    let s1 = (write_locked m d.effective_action now d.reason d.is_accepted s).1 in
    let w = write_locked-authority m d.effective_action now d.reason d.is_accepted s in
    elim (write_decision_state c d m now s) [
      | inl e ↦ rw e w
      | inr (r, _, inl e) ↦ rw e (after_write-authority c d r now s1 ∙ w)
      | inr (r, _, inr e) ↦ rw e (after_write-authority c d r now s1 ∙ w)
    ]

watch-Grows :
    (l : Option CandidateLease) (b : Option PolicyBinding) (now : ℕ) (s : Sink)
    → Grows s (watch l b now s).1
watch-Grows l b now s = elim (watch_state now s l b) [
  | inl e ↦ rw e (omega arith)
  | inr (inl e) ↦ rw e (revoke-Grows now state_watchdog s)
  | inr (inr (x, _, e)) ↦ rw e (
      Grows-same s (write_locked x.mode zero_action now active_policy_idle_keepalive false s).1
        (write_locked-authority x.mode zero_action now active_policy_idle_keepalive false s))
]

initialize-authority : (f : Telemetry) (s : Sink) → (initialize f s).1.authority ≡ s.authority
unfolding initialize
initialize-authority f s = ground arith

-- No call on the sink makes the authority's generation smaller.
pub step-Grows : (m : Method) (s : Sink) → Grows s (step m s)
unfolding step
step-Grows (initialized f) s = Grows-same s (initialize f s).1 (initialize-authority f s)
step-Grows (observed f) s = elim (observe_telemetry_state f s) [
  | inl e ↦ rw e (omega arith)
  | inr (_, e) ↦ rw e (observe_locked-Grows f s)
]
step-Grows (invalidated now alive) s = elim (invalidate_telemetry_state now alive s) [
  | inl e ↦ rw e (omega arith)
  | inr (_, f, e) ↦ rw e (observe_locked-Grows (invalid_row f now alive) s)
]
step-Grows (handed_off b now) s = elim (request_handoff_state now s b) [
  | inl e ↦ rw e (omega arith)
  | inr (inl e) ↦ rw e (omega arith)
  | inr (inr (_, _, e)) ↦ rw e (handoff-Grows b now s)
]
step-Grows (stopped now) s = elim (request_stop_state now s) [
  | inl e ↦ rw e (omega arith)
  | inr (_, _, e) ↦ rw e (stop-Grows now none s)
]
step-Grows (source_stopped b g now) s = elim (request_source_stop_state now s b g) [
  | inl e ↦ rw e (omega arith)
  | inr (_, _, e) ↦ rw e (stop-Grows now none s)
]
step-Grows (disarmed now) s = elim (terminal_disarm_state now s) [
  | inl e ↦ rw e (omega arith)
  | inr (_, _, e) ↦ rw e (disarm-Grows now (last_mode s) s)
]
step-Grows (submitted c now) s = elim (submit_candidate_state now s c) [
  | inl e ↦ rw e (omega arith)
  | inr (inl (_, _, e)) ↦ rw e (revoke-Grows now safety_rejected s)
  | inr (inr (m, _, _, e)) ↦ rw e (
      Grows-same s (write_decision c (decision s c now) m now s).1
        (write_decision-authority c (decision s c now) m now s))
]
step-Grows (ticked now) s = elim (tick_state now s) [
  | inl e ↦ rw e (omega arith)
  | inr (_, _, inl e) ↦
      rw (e, expire_lease_state now s) (stop-Grows now (some candidate_lease_expired) s)
  | inr (_, _, inr (inl e)) ↦ rw e (watch-Grows s.candidate_lease s.authority.active_binding now s)
  | inr (_, _, inr (inr e)) ↦
      rw e (watch-Grows s.candidate_lease s.authority.active_binding now (dropped s))
]

pub run-Grows : (ms : List Method) (s : Sink) → Grows s (run ms s)
unfolding run
run-Grows [] s = omega arith
run-Grows (m ∷ ms) s = omega (arith, step-Grows m s, run-Grows ms (step m s))
