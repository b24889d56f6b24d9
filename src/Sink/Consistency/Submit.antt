-- ===== src/Sink/Consistency/Submit.antt =====
-- The candidate and watchdog methods of edge_runtime/resident_sink.py and the invariant.
use excavator_orin_runtime.Prelude.{
  ℕ, ◌≡◌, ap, ◌∙◌, not, inl, inr, Bool, true, false, Option, some, arith,
}
use excavator_orin_runtime.Motion.{
  ControlMode, Action, zero_action, active, PolicyBinding, MotionCandidate,
}
use excavator_orin_runtime.Motion.Authority.{
  Authority, RoutedCommand, Reason, safety_rejected, active_policy_idle_keepalive, state_watchdog,
  candidate_lease_expired,
}
use excavator_orin_runtime.Motion.Authority.Routing.{route_lem}
use excavator_orin_runtime.Sink.{Sink, CandidateLease, WriteResult}
use excavator_orin_runtime.Sink.Writes.{write_locked}
use excavator_orin_runtime.Sink.Writes.Effects.{write_locked_effect}
use excavator_orin_runtime.Sink.Submit.{
  submit_candidate, decision, permits_active, write_decision, after_write, tick, watch,
}
use excavator_orin_runtime.Sink.Submit.States.{
  dropped, latched, write_decision_state, submit_candidate_state, watch_state, tick_state,
  expire_lease_state,
}
use excavator_orin_runtime.Sink.Consistency.{IsConsistent}
use excavator_orin_runtime.Sink.Consistency.Requests.{
  issue-stop_state-IsConsistent, revoke_for_safety-IsConsistent, write_locked-IsConsistent,
}

-- A write does not touch the phase.
write_locked_phase :
    (m : ControlMode) (a : Action) (now : ℕ) (r : Reason) (acc : Bool) (s : Sink)
    → (write_locked m a now r acc s).1.authority.phase ≡ s.authority.phase
write_locked_phase m a now r acc s = elim (write_locked_effect m a now r acc s) [
  | inl (w, same, p) ↦ ap (λ (a : Authority). a.phase) same.authority
  | inr (e, w, halted) ↦ ap (λ (a : Authority). a.phase) halted.authority
]

module _ (s : Sink) (v : IsConsistent s) (now : ℕ) where
  -- An accepted decision is for a source in force.
  decision_in_force :
      (c : MotionCandidate) → (decision s c now).is_accepted ≡ true → s.authority.phase ≡ active
  decision_in_force c h = ((route_lem s.authority c now (permits_active s now)).0.0 h).1.in_force

  after_write-IsConsistent :
      (c : MotionCandidate) (d : RoutedCommand) (r : WriteResult)
      → (d.is_accepted ≡ true → s.authority.phase ≡ active)
      → IsConsistent (after_write c d r now s).1
  unfolding after_write
  after_write-IsConsistent c d r f = ground arith

  latched-IsConsistent : (b : Bool) → IsConsistent (latched b s)
  latched-IsConsistent b = ground arith

  watch-IsConsistent :
      (lease : Option CandidateLease) (b : Option PolicyBinding)
      → s.synchronized ≡ true
      → IsConsistent (watch lease b now s).1
  watch-IsConsistent lease b i = elim (watch_state now s lease b) [
    | inl e ↦ rw e v
    | inr (inl e) ↦ rw e (revoke_for_safety-IsConsistent s v now state_watchdog i)
    | inr (inr (b', _, e)) ↦
        rw e (
          write_locked-IsConsistent b'.mode zero_action now active_policy_idle_keepalive false s i
            v)
  ]

  dropped-IsConsistent : IsConsistent (dropped s)
  dropped-IsConsistent = ground arith

module _ (s : Sink) (v : IsConsistent s) (now : ℕ) where
  write_decision-IsConsistent :
      (c : MotionCandidate) (d : RoutedCommand) (m : ControlMode)
      → s.synchronized ≡ true
      → (d.is_accepted ≡ true → s.authority.phase ≡ active)
      → IsConsistent (write_decision c d m now s).1
  write_decision-IsConsistent c d m i f =
      let s1 = (write_locked m d.effective_action now d.reason d.is_accepted s).1 in
      let v1 = write_locked-IsConsistent m d.effective_action now d.reason d.is_accepted s i v in
      let f1 : d.is_accepted ≡ true → s1.authority.phase ≡ active =
        λ h. write_locked_phase m d.effective_action now d.reason d.is_accepted s ∙ f h in
      elim (write_decision_state c d m now s) [
        | inl e ↦ rw e v1
        | inr (r, _, inl e) ↦ rw e (after_write-IsConsistent s1 v1 now c d r f1)
        | inr (r, _, inr e) ↦ rw e (
            latched-IsConsistent (after_write c d r now s1).1
              (after_write-IsConsistent s1 v1 now c d r f1) now (not d.is_accepted))
      ]

  pub submit_candidate-IsConsistent :
      (c : MotionCandidate) → IsConsistent (submit_candidate c now s).1
  submit_candidate-IsConsistent c = elim (submit_candidate_state now s c) [
    | inl e ↦ rw e v
    | inr (inl (i, d, e)) ↦ rw e (revoke_for_safety-IsConsistent s v now safety_rejected i)
    | inr (inr (m, _, w, e)) ↦ rw e (
        write_decision-IsConsistent c (decision s c now) m w.synchronized
          (decision_in_force s v now c))
  ]

pub tick-IsConsistent : (s : Sink) → IsConsistent s → (now : ℕ) → IsConsistent (tick now s).1
tick-IsConsistent s v now = elim (tick_state now s) [
  | inl e ↦ rw e v
  | inr (i, d, inl e) ↦
      rw (e, expire_lease_state now s)
        (issue-stop_state-IsConsistent s v now (some candidate_lease_expired) i)
  | inr (i, d, inr (inl e)) ↦
      rw e (watch-IsConsistent s v now s.candidate_lease s.authority.active_binding i)
  | inr (i, d, inr (inr e)) ↦ rw e (
      watch-IsConsistent (dropped s) (dropped-IsConsistent s v now) now s.candidate_lease
        s.authority.active_binding i)
]
