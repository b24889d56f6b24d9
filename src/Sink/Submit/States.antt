-- ===== src/Sink/Submit/States.antt =====
-- The states that the candidate and watchdog methods of edge_runtime/resident_sink.py lead to.
use excavator_orin_runtime.Prelude.{
  ℕ, ◌≡◌, refl, ◌∙◌, ◌⊎◌, inl, inr, Bool, true, false, ◌&&◌, not, Option, none, some, arith,
  Option-cases, is_some,
}
use excavator_orin_runtime.Prelude.Fault.{ok, Outcome-cases}
use excavator_orin_runtime.Motion.{ControlMode, zero_action, PolicyBinding, MotionCandidate}
use excavator_orin_runtime.Motion.Authority as A
use excavator_orin_runtime.Motion.Authority.{
  RoutedCommand, Reason, safety_rejected, candidate_lease_expired, active_policy_idle_keepalive,
  state_watchdog,
}
use excavator_orin_runtime.Sink.{Sink, CandidateLease, WriteResult}
use excavator_orin_runtime.Sink.Writes.{write_locked, issue_pending_zero, revoke_for_safety}
use excavator_orin_runtime.Sink.Requests.States.{stop_state}
use excavator_orin_runtime.Sink.Submit.{
  submit_candidate, decide, decide_with, decision, write_decision, after_write, is_passive, tick,
  watch, expire_lease,
}

abbrev pub dropped : Sink → Sink
dropped s = record s { candidate_lease = none }

-- The branch that hands a candidate's decision to the writer.
pub record Writes (s : Sink) (d : RoutedCommand) : Type 0 where
  pub synchronized : s.synchronized ≡ true
  pub armed : s.disarmed ≡ false
  pub unawaited : s.pending_ack ≡ none
  pub not_passive : is_passive d.reason ≡ false
  pub one_first : (d.is_accepted && is_some s.first_nonzero) ≡ false

module _ (now : ℕ) (s : Sink) where
  decide_with_state :
      (c : MotionCandidate) (d : RoutedCommand) (mode : ControlMode)
      → ((decide_with c d mode now s).1 ≡ s)
        ⊎ ((decide_with c d mode now s).1 ≡ (revoke_for_safety now safety_rejected s).1)
        ⊎ ((s.pending_ack ≡ none)
            × (is_passive d.reason ≡ false)
            × ((d.is_accepted && is_some s.first_nonzero) ≡ false)
            × ((decide_with c d mode now s).1 ≡ (write_decision c d mode now s).1))
  unfolding decide_with
  decide_with_state c d mode = ground arith

  decide-none :
      (c : MotionCandidate) (d : RoutedCommand) (m : Option ControlMode)
      → m ≡ none
      → (decide c d m now s).1 ≡ s
  unfolding decide
  decide-none c d m e = rw e

  decide-some :
      (c : MotionCandidate) (d : RoutedCommand) (m : Option ControlMode) (mode : ControlMode)
      → m ≡ some mode
      → (decide c d m now s).1 ≡ (decide_with c d mode now s).1
  unfolding decide
  decide-some c d m mode e = rw e

  submit_decides :
      (c : MotionCandidate)
      → ((submit_candidate c now s).1 ≡ s)
        ⊎ ((s.synchronized ≡ true)
            × (s.disarmed ≡ false)
            × ((submit_candidate c now s).1
                ≡ (decide c (decision s c now) (decision s c now).mode now s).1))
  unfolding submit_candidate
  submit_decides c = ground arith

  pub submit_candidate_state :
      (c : MotionCandidate)
      → ((submit_candidate c now s).1 ≡ s)
        ⊎ ((s.synchronized ≡ true)
            × (s.disarmed ≡ false)
            × ((submit_candidate c now s).1 ≡ (revoke_for_safety now safety_rejected s).1))
        ⊎ ((m : ControlMode) × ((decision s c now).mode ≡ some m)
            × Writes s (decision s c now)
            × ((submit_candidate c now s).1 ≡ (write_decision c (decision s c now) m now s).1))
  submit_candidate_state c = elim (submit_decides c) [
    | inl e ↦ inl e
    | inr (i, a, e) ↦
        let d = decision s c now in
        elim (Option-cases d.mode) [
          | inl n ↦ inl (e ∙ decide-none c d d.mode n)
          | inr (m, n) ↦
              let into = e ∙ decide-some c d d.mode m n in
              elim (decide_with_state c d m) [
                | inl f ↦ inl (into ∙ f)
                | inr (inl f) ↦ inr (inl (i, a, into ∙ f))
                | inr (inr (u, p, o, f)) ↦ inr (
                    inr (
                      m,
                      n,
                      record {
                        synchronized = i;
                        armed = a;
                        unawaited = u;
                        not_passive = p;
                        one_first = o;
                      },
                      into ∙ f,
                    ))
              ]
        ]
  ]

  pub watch_state :
      (lease : Option CandidateLease) (active : Option PolicyBinding)
      → ((watch lease active now s).1 ≡ s)
        ⊎ ((watch lease active now s).1 ≡ (revoke_for_safety now state_watchdog s).1)
        ⊎ ((b : PolicyBinding) × (active ≡ some b)
            × ((watch lease active now s).1
                ≡ (write_locked b.mode zero_action now active_policy_idle_keepalive false s).1))
  unfolding watch
  watch_state lease none = inl refl
  watch_state lease (some b) = elim (watch_active_state lease b) [
    | inl e ↦ inl e
    | inr (inl e) ↦ inr (inl e)
    | inr (inr e) ↦ inr (inr (b, refl, e))
  ]
    where
      watch_active_state :
          (lease : Option CandidateLease) (b : PolicyBinding)
          → ((watch lease (some b) now s).1 ≡ s)
            ⊎ ((watch lease (some b) now s).1 ≡ (revoke_for_safety now state_watchdog s).1)
            ⊎ ((watch lease (some b) now s).1
                ≡ (write_locked b.mode zero_action now active_policy_idle_keepalive false s).1)
      watch_active_state lease b = ground arith

  pub tick_state :
      ((tick now s).1 ≡ s)
      ⊎ ((s.synchronized ≡ true)
          × (s.disarmed ≡ false)
          × (((tick now s).1 ≡ (expire_lease now s).1)
              ⊎ ((tick now s).1 ≡ (watch s.candidate_lease s.authority.active_binding now s).1)
              ⊎ ((tick now s).1
                  ≡ (watch s.candidate_lease s.authority.active_binding now (dropped s)).1)))
  unfolding tick
  tick_state = ground arith

  pub expire_lease_state :
      (expire_lease now s).1
      ≡ (issue_pending_zero now (some candidate_lease_expired) (stop_state now s)).1
  unfolding expire_lease stop_state A.request_stop
  expire_lease_state = ground arith

-- The latch after a candidate's write.
abbrev pub latched : Bool → Sink → Sink
latched b s = record s { unsafe_zero_latched = b }

module _ (c : MotionCandidate) (d : RoutedCommand) (m : ControlMode) (now : ℕ) (s : Sink) where
  pub write_decision_state :
      let s1 = (write_locked m d.effective_action now d.reason d.is_accepted s).1 in
      ((write_decision c d m now s).1 ≡ s1)
      ⊎ ((r : WriteResult) × ((write_locked m d.effective_action now d.reason d.is_accepted s).0
            ≡ ok r)
          × (((write_decision c d m now s).1 ≡ (after_write c d r now s1).1)
              ⊎ ((write_decision c d m now s).1
                  ≡ latched (not d.is_accepted) (after_write c d r now s1).1)))
  unfolding write_decision
  write_decision_state =
      elim (Outcome-cases (write_locked m d.effective_action now d.reason d.is_accepted s).0) [
        | inr (e, h) ↦ inl (ground arith)
        | inl (r, h) ↦
            elim (Outcome-cases
              (after_write c d r now
                (write_locked m d.effective_action now d.reason d.is_accepted s).1).0) [
                  | inr (e, k) ↦ inr (r, h, inl (ground arith))
                  | inl (u, k) ↦ inr (r, h, inr (ground arith))
                ]
      ]
