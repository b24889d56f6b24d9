-- ===== src/Sink/Wire/Submit.antt =====
-- What the candidate and watchdog methods of edge_runtime/resident_sink.py hand to the port.
use excavator_orin_runtime.Prelude.{
  ℕ, ◌≡◌, refl, ◌∙◌, ◌⊎◌, inl, inr, true, false, not, Option, none, some, arith, Bool-cases,
}
use excavator_orin_runtime.Motion.{ControlMode, zero_action, PolicyBinding, MotionCandidate}
use excavator_orin_runtime.Motion.Authority.{
  RoutedCommand, safety_rejected, active_policy_idle_keepalive, state_watchdog,
  candidate_lease_expired,
}
use excavator_orin_runtime.Motion.Authority.Routing.{IsAdmissible, route_lem, route_mode}
use excavator_orin_runtime.Commands.{Frame}
use excavator_orin_runtime.Commands.Codec.{frame_action, frame_mode}
use excavator_orin_runtime.Sink.{Sink, CandidateLease, WriteResult}
use excavator_orin_runtime.Sink.Writes.{write_locked, safety_permits}
use excavator_orin_runtime.Sink.Submit.{
  submit_candidate, decision, permits_active, write_decision, after_write, tick, watch,
}
use excavator_orin_runtime.Sink.Submit.States.{
  Writes, dropped, latched, write_decision_state, submit_candidate_state, watch_state, tick_state,
  expire_lease_state,
}
use excavator_orin_runtime.Sink.Wire.{
  Extends, Extends-refl, Extends-same, Extends-trans, zero-Extends, write_locked-Extends,
}
use excavator_orin_runtime.Sink.Wire.Requests.{issue-stop_state-Extends, revoke_for_safety-Extends}

-- What lets a candidate's action onto the wire: the sink is armed and awaits no acknowledgement,
-- the candidate is admissible for the source in force, and the latest telemetry is fresh and safe.
pub record Licensed (s : Sink) (c : MotionCandidate) (now : ℕ) (b : PolicyBinding) : Type 0 where
  pub synchronized : s.synchronized ≡ true
  pub armed : s.disarmed ≡ false
  pub unawaited : s.pending_ack ≡ none
  pub admissible : IsAdmissible s.authority c now true b
  pub safe : safety_permits s now b.mode ≡ true

-- A frame with the zero action, or with the candidate's action in the mode of the source that
-- licenses it.
abbrev pub ZeroOrLicensed : Sink → MotionCandidate → ℕ → Frame → Type 0
ZeroOrLicensed s c now f =
    (frame_action f ≡ zero_action)
    ⊎ ((b : PolicyBinding) × (frame_mode f ≡ b.mode)
        × (frame_action f ≡ c.action)
        × Licensed s c now b)

permits-IsAdmissible :
    (s : Sink) (c : MotionCandidate) (now : ℕ) (b : PolicyBinding)
    → IsAdmissible s.authority c now (permits_active s now) b
    → (safety_permits s now b.mode ≡ true) × IsAdmissible s.authority c now true b
permits-IsAdmissible s c now b v = (ground (arith, v.bound), ground arith)

after_write_port :
    (c : MotionCandidate) (d : RoutedCommand) (r : WriteResult) (now : ℕ) (s : Sink)
    → ((after_write c d r now s).1.port ≡ s.port)
      × ((after_write c d r now s).1.encoder ≡ s.encoder)
unfolding after_write
after_write_port c d r now s = ground arith

module _ (Q : Frame → Type 0) where
  write_decision-Extends :
      (c : MotionCandidate) (d : RoutedCommand) (m : ControlMode) (now : ℕ) (s : Sink)
      → ((f : Frame) → frame_mode f ≡ m → frame_action f ≡ d.effective_action → Q f)
      → Extends Q s (write_decision c d m now s).1
  write_decision-Extends c d m now s q =
      let s1 = (write_locked m d.effective_action now d.reason d.is_accepted s).1 in
      let w = write_locked-Extends Q m d.effective_action now d.reason d.is_accepted s q in
      elim (write_decision_state c d m now s) [
        | inl e ↦ rw e w
        | inr (r, _, inl e) ↦
            let (p, n) = after_write_port c d r now s1 in
            rw e (Extends-trans Q w (Extends-same Q s1 (after_write c d r now s1).1 p n))
        | inr (r, _, inr e) ↦
            let (p, n) = after_write_port c d r now s1 in
            rw e (
              Extends-trans Q w
                (Extends-same Q s1 (latched (not d.is_accepted) (after_write c d r now s1).1) p n))
      ]

module _ (s : Sink) (c : MotionCandidate) (now : ℕ) where
  -- The frame of a decision carries the zero action, or is licensed.
  decision_frame :
      (m : ControlMode)
      → (decision s c now).mode ≡ some m
      → Writes s (decision s c now)
      → (f : Frame) → frame_mode f ≡ m
      → frame_action f ≡ (decision s c now).effective_action
      → ZeroOrLicensed s c now f
  decision_frame m n w f fm fa =
      let (iff, action) = route_lem s.authority c now (permits_active s now) in
      elim (Bool-cases (decision s c now).is_accepted) [
        | inr refused ↦ inl (fa ∙ action ∙ rw refused)
        | inl taken ↦
            let (b, v) = iff.0 taken in
            let (safe, v') = permits-IsAdmissible s c now b v in
            inr (
              b,
              ground
                  (arith, n, fm, route_mode s.authority c now (permits_active s now) v.bound taken),
              fa ∙ action ∙ rw taken,
              record {
                synchronized = w.synchronized;
                armed = w.armed;
                unawaited = w.unawaited;
                admissible = v';
                safe = safe;
              },
            )
      ]

  -- Whatever a candidate is, its submission adds to the wire only frames that carry the zero
  -- action, or the candidate's own action under a license.
  pub submit_candidate-Extends : Extends (ZeroOrLicensed s c now) s (submit_candidate c now s).1
  submit_candidate-Extends = elim (submit_candidate_state now s c) [
    | inl e ↦ rw e (Extends-refl _ s)
    | inr (inl (_, _, e)) ↦
        rw e
          (revoke_for_safety-Extends (ZeroOrLicensed s c now) (λ f z. inl z) now safety_rejected s)
    | inr (inr (m, n, w, e)) ↦ rw e (
        write_decision-Extends (ZeroOrLicensed s c now) c (decision s c now) m now s
          (decision_frame m n w))
  ]

module _ (Q : Frame → Type 0) (zero_ok : (f : Frame) → frame_action f ≡ zero_action → Q f) where
  watch-Extends :
      (lease : Option CandidateLease) (b : Option PolicyBinding) (now : ℕ) (s : Sink)
      → Extends Q s (watch lease b now s).1
  watch-Extends lease b now s = elim (watch_state now s lease b) [
    | inl e ↦ rw e (Extends-refl Q s)
    | inr (inl e) ↦ rw e (revoke_for_safety-Extends Q zero_ok now state_watchdog s)
    | inr (inr (b', _, e)) ↦
        rw e (zero-Extends Q zero_ok b'.mode now active_policy_idle_keepalive false s)
  ]

  pub tick-Extends : (now : ℕ) (s : Sink) → Extends Q s (tick now s).1
  tick-Extends now s = elim (tick_state now s) [
    | inl e ↦ rw e (Extends-refl Q s)
    | inr (_, _, inl e) ↦
        rw (e, expire_lease_state now s)
          (issue-stop_state-Extends Q zero_ok now (some candidate_lease_expired) s)
    | inr (_, _, inr (inl e)) ↦
        rw e (watch-Extends s.candidate_lease s.authority.active_binding now s)
    | inr (_, _, inr (inr e)) ↦ rw e (
        Extends-trans Q (Extends-same Q s (dropped s) refl refl)
          (watch-Extends s.candidate_lease s.authority.active_binding now (dropped s)))
  ]
