-- ===== src/Sink.antt =====
-- The state of `ResidentCommandSink` in edge_runtime/resident_sink.py: the one owner of the serial
-- port, with what it has written and what it waits for.
pub mod Writes
pub mod Requests
pub mod Observe
pub mod Submit
pub mod Consistency
pub mod Wire
pub mod History
mod Examples
use excavator_orin_runtime.Prelude.{
  ℕ, suc, ◌+◌, ◌-◌, String, Bool, true, false, ◌&&◌, ◌||◌, not, Option, none, some, List, [], ◌∷◌,
  if◌then◌else◌, ltb, leb, length, strip, is_empty,
}
use excavator_orin_runtime.Prelude.Fault.{
  Error, Outcome, ok, raised, value_error, runtime_error, os_error, short_write, write_failed,
  flush_failed, uint32_range, action_not_finite, intervals_not_monotonic,
}
use excavator_orin_runtime.Prelude.Proc.{Proc, return, raise, read, assign, ◌>>=◌, ◌>>◌}
use excavator_orin_runtime.Motion.{ControlMode, Action, action_finite, PolicyBinding}
use excavator_orin_runtime.Motion.Authority.{Authority, Purpose, Reason, new_authority}
use excavator_orin_runtime.Commands.{Frame, Encoder, new_encoder, uint32_max}

pub record Telemetry : Type 0 where
  pub receive_ns : ℕ
  pub command_rx_seq : ℕ
  pub command_valid : Bool
  pub command_timed_out : Bool
  pub control_mode : Option ControlMode
  pub command_action : Action
  pub control_enabled : Bool
  pub estop : Bool
  pub sensor_valid : Bool
  pub stm32_alive : Bool
  pub fault_flags : ℕ

-- The checks of `ResidentTelemetry(...)` that the types leave open.
unfoldable pub resident_telemetry : Telemetry → Outcome Telemetry
resident_telemetry t =
    if not (leb t.command_rx_seq uint32_max)
    then raised (value_error uint32_range)
    else if not (action_finite t.command_action)
    then raised (value_error action_not_finite)
    else ok t

abbrev pub command_received : Telemetry → Bool
command_received t = t.command_valid || t.command_timed_out

pub record WriteResult : Type 0 where
  pub is_accepted : Bool
  pub write_performed : Bool
  pub reason : Reason
  pub command_seq : Option ℕ
  pub mode : Option ControlMode
  pub effective_action : Action

pub record HandoffSample : Type 0 where
  pub runtime_id : String
  pub generation : ℕ
  pub source_binding : PolicyBinding
  pub target_binding : PolicyBinding
  pub terminal_zero_seq : ℕ
  pub terminal_zero_ack_ns : ℕ
  pub target_zero_seq : ℕ
  pub target_zero_ack_ns : ℕ
  pub first_nonzero_seq : ℕ
  pub first_nonzero_action : Action
  pub first_nonzero_write_ns : ℕ
  pub first_nonzero_ack_ns : ℕ

-- The four intervals of `as_payload`, in nanoseconds.
pub record Intervals : Type 0 where
  pub zero_claim : ℕ
  pub policy_ready_wait : ℕ
  pub first_command_ack : ℕ
  pub latency : ℕ

elapsed : ℕ → ℕ → Outcome ℕ
elapsed start end_ns =
    if ltb end_ns start then raised (runtime_error intervals_not_monotonic) else ok (end_ns - start)

unfoldable pub sample_intervals : HandoffSample → Outcome Intervals
unfolding elapsed
sample_intervals s = elim (elapsed s.terminal_zero_ack_ns s.target_zero_ack_ns) [
  | raised e ↦ raised e
  | ok claim ↦ elim (elapsed s.target_zero_ack_ns s.first_nonzero_write_ns) [
    | raised e ↦ raised e
    | ok wait ↦ elim (elapsed s.first_nonzero_write_ns s.first_nonzero_ack_ns) [
      | raised e ↦ raised e
      | ok first ↦ elim (elapsed s.terminal_zero_ack_ns s.first_nonzero_ack_ns) [
        | raised e ↦ raised e
        | ok total ↦ ok (record {
          zero_claim = claim;
          policy_ready_wait = wait;
          first_command_ack = first;
          latency = total;
        })
      ]
    ]
  ]
]

pub record PendingAck : Type 0 where
  pub generation : ℕ
  pub mode : ControlMode
  pub purpose : Purpose
  pub command_seq : ℕ

pub record CandidateLease : Type 0 where
  pub binding : PolicyBinding
  pub generation : ℕ
  pub valid_until_ns : ℕ

pub record Measurement : Type 0 where
  pub runtime_id : String
  pub generation : ℕ
  pub source_binding : PolicyBinding
  pub target_binding : PolicyBinding
  pub terminal_zero_seq : ℕ
  pub terminal_zero_ack_ns : ℕ
  pub target_zero_seq : Option ℕ
  pub target_zero_ack_ns : Option ℕ

pub record FirstNonzero : Type 0 where
  pub generation : ℕ
  pub mode : ControlMode
  pub command_seq : ℕ
  pub action : Action
  pub write_ns : ℕ

-- What one write of the serial port does: `complete`, fewer bytes, a raise of `write` or of `flush`.
pub data PortOutcome : Type 0 where
  complete short write_raises flush_raises : PortOutcome

-- The port: what it will do at each attempt, and the frames handed to it, newest first.
pub record Port : Type 0 where
  pub outcomes : ℕ → PortOutcome
  pub attempts : ℕ
  pub wire : List Frame

abbrev port_result : PortOutcome → Outcome (Unit {0})
port_result complete = ok tt
port_result short = raised (os_error short_write)
port_result write_raises = raised (os_error write_failed)
port_result flush_raises = raised (os_error flush_failed)

-- `serial.write(payload)`, the check of its count, and `serial.flush()`.
unfoldable pub write_frame : Frame → Proc Port Unit
write_frame f p =
    (port_result (p.outcomes p.attempts), record p { attempts = suc p.attempts; wire = f ∷ p.wire })

-- What is handed to `emit_action_audit`.
pub data AuditEvent : Type 0 where
  command_ack :
      (time_ns generation : ℕ) → Option String → ControlMode → (seq : ℕ) → Action → AuditEvent
  command_write :
      (time_ns generation : ℕ)
      → Option String
      → ControlMode
      → (seq : ℕ) → Action
      → Reason
      → (accepted : Bool) → AuditEvent

pub record Sink : Type 0 where
  pub max_state_age_ns : ℕ
  pub runtime_id : String
  pub port : Port
  pub authority : Authority
  pub encoder : Encoder
  pub latest_telemetry : Option Telemetry
  pub pending_ack : Option PendingAck
  pub candidate_lease : Option CandidateLease
  pub measurement : Option Measurement
  pub first_nonzero : Option FirstNonzero
  pub last_write_ns : Option ℕ
  pub last_audited_ack : Option ℕ
  pub synchronized : Bool
  pub unsafe_zero_latched : Bool
  pub disarmed : Bool
  pub terminal_error : Option Error
  pub audit : List AuditEvent
  pub samples : List HandoffSample

unfoldable pub new_sink : ℕ → ℕ → String → (ℕ → PortOutcome) → Sink
new_sink max_state_age_ns max_future_skew_ns runtime_id outcomes = record {
  max_state_age_ns = max_state_age_ns;
  runtime_id = runtime_id;
  port = record { outcomes = outcomes; attempts = 0; wire = [] };
  authority = new_authority max_future_skew_ns;
  encoder = new_encoder;
  latest_telemetry = none;
  pending_ack = none;
  candidate_lease = none;
  measurement = none;
  first_nonzero = none;
  last_write_ns = none;
  last_audited_ack = none;
  synchronized = false;
  unsafe_zero_latched = false;
  disarmed = false;
  terminal_error = none;
  audit = [];
  samples = [];
}
