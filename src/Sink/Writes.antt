-- ===== src/Sink/Writes.antt =====
-- The private methods of edge_runtime/resident_sink.py that write: every frame goes through
-- `write_locked`.
pub mod Effects
pub mod States
use excavator_orin_runtime.Prelude.{
  ℕ, ◌+◌, ◌-◌, String, Bool, true, false, ◌&&◌, not, Option, none, some, List, [], ◌∷◌,
  if◌then◌else◌, ltb, leb, ◌==◌,
}
use excavator_orin_runtime.Prelude.Fault.{
  Error, Outcome, ok, raised, runtime_error, zero_without_sequence, revocation_without_zero,
}
use excavator_orin_runtime.Prelude.Proc.{
  Proc, return, raise, read, call, required, assign, within_part, cleanup, ◌>>=◌, ◌>>◌,
}
use excavator_orin_runtime.Motion.{ControlMode, mode_eq, Action, zero_action, PolicyBinding}
use excavator_orin_runtime.Motion.Authority.{
  Authority, Purpose, PendingZero, Reason, purpose_of, target_mode_claim, pending_zero,
  request_stop,
}
use excavator_orin_runtime.Commands.{encode}
use excavator_orin_runtime.Sink.{
  Telemetry, WriteResult, PendingAck, write_frame, command_write, Sink,
}

abbrev pub cancel_measurement : Sink → Sink
cancel_measurement s = record s { measurement = none; first_nonzero = none }

-- The method of a part.
abbrev pub in_authority {ℓ} :
    {A : Type ℓ} → (Authority → Outcome A × Authority) → Sink → Outcome A × Sink
in_authority m s = let (r, a) = m s.authority in (r, record s { authority = a })

abbrev has_mode : Option ControlMode → ControlMode → Bool
has_mode none m = false
has_mode (some x) m = mode_eq x m

abbrev fresh_and_safe : Option Telemetry → ℕ → ℕ → ControlMode → Bool
fresh_and_safe none age now expected = false
fresh_and_safe (some f) age now expected =
    not (ltb now f.receive_ns)
    && (not (ltb age (now - f.receive_ns))
        && (f.control_enabled
            && (not f.estop
                && (f.sensor_valid
                    && (f.stm32_alive
                        && (f.fault_flags == 0
                            && (f.command_valid
                                && (not f.command_timed_out
                                    && has_mode f.control_mode expected))))))))

-- `_safety_permits_locked`.
unfoldable pub safety_permits : Sink → ℕ → ControlMode → Bool
safety_permits s now expected = fresh_and_safe s.latest_telemetry s.max_state_age_ns now expected

abbrev is_claim : Reason → Bool
is_claim (purpose_of target_mode_claim) = true
is_claim _ = false

abbrev pub source_of : Option PolicyBinding → Option String
source_of none = none
source_of (some b) = some b.source

-- The `try` block of `_write_locked`.
send : ControlMode → Action → ℕ → Proc Sink Unit
send mode action now = do
  frame ← within_part (λ s. s.encoder) (λ e s. record s { encoder = e }) (encode mode action now)
  within_part (λ s. s.port) (λ p s. record s { port = p }) (write_frame frame)
  assign (λ s. record s { last_write_ns = some now })

-- Its `except` block.
abbrev fault : Error → Sink → Sink
fault e s = record (cancel_measurement s) { terminal_error = some e; disarmed = true }

unfoldable pub write_locked : ControlMode → Action → ℕ → Reason → Bool → Proc Sink WriteResult
unfolding send write_frame
write_locked mode action now reason accepted = do
  sequence ← read (λ s. s.encoder.next_sequence)
  cleanup (send mode action now) fault
  assign (λ s. record s {
    audit =
        command_write now s.authority.generation
          (source_of
            (if is_claim reason then s.authority.target_binding else s.authority.active_binding))
          mode sequence action reason accepted
        ∷ s.audit;
  })
  return (record {
    is_accepted = accepted;
    write_performed = true;
    reason = reason;
    command_seq = some sequence;
    mode = some mode;
    effective_action = action;
  })

-- `purpose if write_reason is None else write_reason`.
abbrev pub reason_or : Option Reason → Purpose → Reason
reason_or none p = purpose_of p
reason_or (some r) p = r

unfoldable pub issue : Option Reason → ℕ → Option PendingZero → Proc Sink (Option WriteResult)
issue reason now none = do assign (λ s. record s { pending_ack = none }); return none
issue reason now (some z) = do
  result ← write_locked z.mode zero_action now (reason_or reason z.purpose) false
  seq ← required result.command_seq (runtime_error zero_without_sequence)
  assign (λ s. record s {
    pending_ack = some (record {
      generation = z.generation;
      mode = z.mode;
      purpose = z.purpose;
      command_seq = seq;
    });
  })
  return (some result)

-- `_issue_pending_zero_locked`.
unfoldable pub issue_pending_zero : ℕ → Option Reason → Proc Sink (Option WriteResult)
unfolding issue
issue_pending_zero now reason = do
  s ← read (λ s. s)
  z ← call (pending_zero s.authority)
  issue reason now z

-- What every revocation clears once the authority has been stopped.
abbrev pub clear_for_stop : Sink → Sink
clear_for_stop s = record (cancel_measurement s) {
  candidate_lease = none;
  unsafe_zero_latched = true;
  pending_ack = none;
}

-- `_revoke_for_safety_locked`.
unfoldable pub revoke_for_safety : ℕ → Reason → Proc Sink WriteResult
revoke_for_safety now reason = do
  in_authority (request_stop now)
  assign clear_for_stop
  result ← issue_pending_zero now (some reason)
  required result (runtime_error revocation_without_zero)
