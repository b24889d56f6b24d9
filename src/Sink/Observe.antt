-- ===== src/Sink/Observe.antt =====
-- The telemetry methods of edge_runtime/resident_sink.py: acknowledgements and the safety check.
pub mod States
pub mod First
use excavator_orin_runtime.Prelude.{
  ℕ, String, Bool, true, false, ◌&&◌, ◌||◌, not, Option, none, some, List, ◌∷◌, if◌then◌else◌, ltb,
  ◌==◌, is_some,
}
use excavator_orin_runtime.Prelude.Fault.{
  Outcome, ok, raised, runtime_error, measurement_inconsistent, target_evidence_incomplete,
  telemetry_unavailable,
}
use excavator_orin_runtime.Prelude.Proc.{
  Proc, return, raise, read, call, assign, required, ensure, within_part, ◌>>=◌, ◌>>◌,
}
use excavator_orin_runtime.Motion.{
  ControlMode, mode_eq, Action, zero_action, is_zero, PolicyBinding,
}
use excavator_orin_runtime.Motion.Authority.{
  Authority, Purpose, terminal_source_zero, target_mode_claim, unsafe_telemetry, pending_zero,
  acknowledge_zero, record_handoff_latency,
}
use excavator_orin_runtime.Sink.{
  Telemetry, PendingAck, Measurement, FirstNonzero, HandoffSample, command_ack, Sink,
}
use excavator_orin_runtime.Sink.Writes.{
  cancel_measurement, in_authority, source_of, safety_permits, issue_pending_zero,
  revoke_for_safety,
}
use excavator_orin_runtime.Sink.Requests.{require_initialized}

abbrev same_mode : Option ControlMode → ControlMode → Bool
same_mode none m = false
same_mode (some x) m = mode_eq x m

abbrev pub is_target_claim : Purpose → Bool
is_target_claim target_mode_claim = true
is_target_claim terminal_source_zero = false

-- The telemetry echoes the pending zero.
abbrev pub echoes_zero : PendingAck → Telemetry → Bool
echoes_zero p frame =
    frame.command_rx_seq == p.command_seq
    && (frame.command_valid
        && (not frame.command_timed_out
            && (same_mode frame.control_mode p.mode && is_zero frame.command_action)))

-- `_ack_matches_locked`: the claim of a target also wants a safe machine.
unfoldable pub ack_matches : Sink → PendingAck → Telemetry → Bool
ack_matches s p frame =
    echoes_zero p frame
    && (not (is_target_claim p.purpose) || safety_permits s frame.receive_ns p.mode)

-- `_first_nonzero_ack_matches_locked`.
unfoldable pub first_nonzero_matches : FirstNonzero → Telemetry → Bool
first_nonzero_matches p frame =
    frame.command_rx_seq == p.command_seq
    && (frame.command_valid && (not frame.command_timed_out && same_mode frame.control_mode p.mode))

abbrev binding_for_mode : Authority → ControlMode → Option PolicyBinding
binding_for_mode a m =
    if same_binding_mode a.active_binding m
    then a.active_binding
    else if same_binding_mode a.target_binding m
    then a.target_binding
    else none
  where
    same_binding_mode : Option PolicyBinding → ControlMode → Bool
    same_binding_mode o m = elim o [ none ↦ false | some b ↦ mode_eq b.mode m ]

abbrev is_number : Option ℕ → ℕ → Bool
is_number none n = false
is_number (some m) n = m == n

unfoldable pub audit_ack : Telemetry → Option ControlMode → Proc Sink Unit
audit_ack frame none = return tt
audit_ack frame (some m) = do
  s ← read (λ s. s)
  if frame.command_valid
        && (not frame.command_timed_out && not (is_number s.last_audited_ack frame.command_rx_seq))
      then assign (λ s. record s {
        audit =
            command_ack frame.receive_ns s.authority.generation
              (source_of (binding_for_mode s.authority m)) m frame.command_rx_seq
              frame.command_action
            ∷ s.audit;
        last_audited_ack = some frame.command_rx_seq;
      })
      else return tt

-- A claim that was measured from its terminal zero on gets its own evidence.
abbrev claim_evidence : Option Measurement → PendingAck → Telemetry → Option Measurement
claim_evidence none p frame = none
claim_evidence (some m) p frame =
    if m.generation == p.generation
    then some (record m {
      target_zero_seq = some p.command_seq;
      target_zero_ack_ns = some frame.receive_ns;
    })
    else some m

-- A terminal zero of a handoff, from `source` to `target`, starts a measurement.
abbrev start_evidence :
    Option PolicyBinding → Option PolicyBinding → PendingAck → Telemetry → Sink → Option Measurement
start_evidence (some source) (some target) p frame s = some (record {
  runtime_id = s.runtime_id;
  generation = p.generation;
  source_binding = source;
  target_binding = target;
  terminal_zero_seq = p.command_seq;
  terminal_zero_ack_ns = frame.receive_ns;
  target_zero_seq = none;
  target_zero_ack_ns = none;
})
start_evidence none _ p frame s = s.measurement
start_evidence (some source) none p frame s = s.measurement

-- The measurement after the acknowledgement of a zero; `before` is the authority before it.
abbrev pub evidence_after : Authority → PendingAck → Telemetry → Sink → Option Measurement
evidence_after before p frame s =
    if is_target_claim p.purpose
    then claim_evidence s.measurement p frame
    else start_evidence before.active_binding before.target_binding p frame s

-- `if self._authority.pending_zero() is not None: self._issue_pending_zero_locked(...)`.
unfoldable pub reissue : ℕ → Proc Sink Unit
reissue now = do
  s ← read (λ s. s)
  z ← call (pending_zero s.authority)
  if is_some z then (do issue_pending_zero now none; return tt) else return tt

unfoldable pub take_ack : PendingAck → Telemetry → Proc Sink Unit
unfolding reissue
take_ack p frame = do
  before ← read (λ s. s.authority)
  in_authority (acknowledge_zero p.generation p.mode zero_action frame.receive_ns)
  assign (λ s. record s { measurement = evidence_after before p frame s; pending_ack = none })
  reissue frame.receive_ns

-- The first block: the acknowledgement of the pending zero.
unfoldable pub settle_zero : Option PendingAck → Telemetry → Proc Sink Unit
unfolding take_ack
settle_zero none frame = return tt
settle_zero (some p) frame = do
  s ← read (λ s. s)
  if ack_matches s p frame then take_ack p frame else return tt

-- `_emit_handoff_sample_locked`; a sample sink that fails is contained.
unfoldable pub emit_sample : Measurement → FirstNonzero → ℕ → Proc Sink Unit
emit_sample m p ack = do
  seq ← required m.target_zero_seq (runtime_error target_evidence_incomplete)
  target_ack ← required m.target_zero_ack_ns (runtime_error target_evidence_incomplete)
  assign (λ s. record s {
    samples =
        record {
          runtime_id = m.runtime_id;
          generation = m.generation;
          source_binding = m.source_binding;
          target_binding = m.target_binding;
          terminal_zero_seq = m.terminal_zero_seq;
          terminal_zero_ack_ns = m.terminal_zero_ack_ns;
          target_zero_seq = seq;
          target_zero_ack_ns = target_ack;
          first_nonzero_seq = p.command_seq;
          first_nonzero_action = p.action;
          first_nonzero_write_ns = p.write_ns;
          first_nonzero_ack_ns = ack;
        }
        ∷ s.samples;
  })

unfoldable pub take_first_nonzero : FirstNonzero → Telemetry → Proc Sink Unit
unfolding emit_sample
take_first_nonzero p frame = do
  s ← read (λ s. s)
  m ← required s.measurement (runtime_error measurement_inconsistent)
  ensure (m.generation == p.generation) (runtime_error measurement_inconsistent)
  in_authority (record_handoff_latency m.generation m.terminal_zero_ack_ns frame.receive_ns)
  emit_sample m p frame.receive_ns
  assign cancel_measurement

-- The second block: the echo of the first nonzero command after a handoff.
unfoldable pub settle_first_nonzero : Option FirstNonzero → Telemetry → Proc Sink Unit
unfolding take_first_nonzero
settle_first_nonzero none frame = return tt
settle_first_nonzero (some p) frame =
    if first_nonzero_matches p frame then take_first_nonzero p frame else return tt

unfoldable pub revoke_once : ℕ → Bool → Proc Sink Unit
revoke_once now true = return tt
revoke_once now false = do revoke_for_safety now unsafe_telemetry; return tt

-- The last block: unsafe telemetry revokes the source in force.
unfoldable pub check_safety : Option PolicyBinding → Telemetry → Proc Sink Unit
unfolding revoke_once
check_safety none frame = return tt
check_safety (some b) frame = do
  s ← read (λ s. s)
  if not (safety_permits s frame.receive_ns b.mode)
      then revoke_once frame.receive_ns s.unsafe_zero_latched
      else if is_some s.pending_ack
      then return tt
      else assign (λ s. record s { unsafe_zero_latched = false })

abbrev pub is_older : Telemetry → Option Telemetry → Bool
is_older frame none = false
is_older frame (some previous) = ltb frame.receive_ns previous.receive_ns

unfoldable pub settle : Telemetry → Proc Sink Unit
settle frame = do
  pending ← read (λ s. s.pending_ack)
  settle_zero pending frame
  first ← read (λ s. s.first_nonzero)
  settle_first_nonzero first frame
  active ← read (λ s. s.authority.active_binding)
  check_safety active frame

unfoldable pub accept_frame : Telemetry → Proc Sink Unit
accept_frame frame = do
  assign (λ s. record s { latest_telemetry = some frame })
  audit_ack frame frame.control_mode
  s ← read (λ s. s)
  if s.disarmed || is_some s.terminal_error then return tt else settle frame

-- `_observe_telemetry_locked`.
unfoldable pub observe_locked : Telemetry → Proc Sink Unit
observe_locked frame = do
  s ← read (λ s. s)
  if is_older frame s.latest_telemetry then return tt else accept_frame frame

unfoldable pub observe_telemetry : Telemetry → Proc Sink Unit
observe_telemetry frame = do require_initialized; observe_locked frame

unfoldable pub invalidate_telemetry : ℕ → Bool → Proc Sink Unit
invalidate_telemetry now alive = do
  require_initialized
  previous ← read (λ s. s.latest_telemetry)
  f ← required previous (runtime_error telemetry_unavailable)
  observe_locked (record f { receive_ns = now; sensor_valid = false; stm32_alive = alive })
