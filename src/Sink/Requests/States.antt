-- ===== src/Sink/Requests/States.antt =====
-- The states that the requests of edge_runtime/resident_sink.py lead to, branch by branch.
use excavator_orin_runtime.Prelude.{ℕ, ◌≡◌, ◌⊎◌, true, false, none, some, arith}
use excavator_orin_runtime.Motion.{PolicyBinding}
use excavator_orin_runtime.Motion.Authority as A
use excavator_orin_runtime.Motion.Authority.{Reason, terminal_disarm as terminal_disarm_reason}
use excavator_orin_runtime.Sink.{Sink}
use excavator_orin_runtime.Sink.Writes.{
  cancel_measurement, clear_for_stop, issue_pending_zero, revoke_for_safety,
}
use excavator_orin_runtime.Sink.Requests.{
  request_handoff, request_stop, request_source_stop, terminal_disarm, last_mode, last_zero,
}

-- The state of a handoff before its zero is issued.
unfoldable pub handoff_state : PolicyBinding → ℕ → Sink → Sink
handoff_state b now s = record (cancel_measurement s) {
  authority = (A.request_handoff b now s.authority).1;
  candidate_lease = none;
  unsafe_zero_latched = false;
}

-- The state of every stop before its zero is issued.
unfoldable pub stop_state : ℕ → Sink → Sink
stop_state now s = clear_for_stop (record s { authority = (A.request_stop now s.authority).1 })

-- The state of a disarm before its zero is written.
unfoldable pub disarm_state : ℕ → Sink → Sink
unfolding stop_state
disarm_state now s = record (stop_state now s) { disarmed = true }

module _ (now : ℕ) (s : Sink) where
  pub request_handoff_state :
      (b : PolicyBinding)
      → ((request_handoff b now s).1 ≡ s)
        ⊎ ((request_handoff b now s).1 ≡ cancel_measurement s)
        ⊎ ((s.synchronized ≡ true)
            × (s.disarmed ≡ false)
            × ((request_handoff b now s).1
                ≡ (issue_pending_zero now none (handoff_state b now s)).1))
  unfolding request_handoff A.request_handoff handoff_state
  request_handoff_state b = ground arith

  pub request_stop_state :
      ((request_stop now s).1 ≡ s)
      ⊎ ((s.synchronized ≡ true)
          × (s.disarmed ≡ false)
          × ((request_stop now s).1 ≡ (issue_pending_zero now none (stop_state now s)).1))
  unfolding request_stop stop_state A.request_stop
  request_stop_state = ground arith

  pub request_source_stop_state :
      (b : PolicyBinding) (generation : ℕ)
      → ((request_source_stop b generation now s).1 ≡ s)
        ⊎ ((s.synchronized ≡ true)
            × (s.disarmed ≡ false)
            × ((request_source_stop b generation now s).1
                ≡ (issue_pending_zero now none (stop_state now s)).1))
  unfolding request_source_stop stop_state A.request_stop
  request_source_stop_state b generation = ground arith

  pub revoke_for_safety_state :
      (r : Reason)
      → (revoke_for_safety now r s).1 ≡ (issue_pending_zero now (some r) (stop_state now s)).1
  unfolding revoke_for_safety stop_state A.request_stop
  revoke_for_safety_state r = ground arith

  pub terminal_disarm_state :
      ((terminal_disarm now s).1 ≡ s)
      ⊎ ((s.synchronized ≡ true)
          × (s.disarmed ≡ false)
          × ((terminal_disarm now s).1 ≡ (last_zero now (last_mode s) (disarm_state now s)).1))
  unfolding terminal_disarm disarm_state A.request_stop
  terminal_disarm_state = ground arith
