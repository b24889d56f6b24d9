-- ===== src/Sink/Requests.antt =====
-- The handoff, stop and disarm methods of edge_runtime/resident_sink.py.
pub mod States
use excavator_orin_runtime.Prelude.{
  ℕ, String, Bool, true, false, ◌&&◌, ◌||◌, not, Option, none, some, if◌then◌else◌, ◌==◌, is_some,
}
use excavator_orin_runtime.Prelude.Fault.{
  Outcome, ok, raised, runtime_error, sink_not_initialized, sink_initialized, sink_disarmed,
  sink_faulted as faulted_fault,
}
use excavator_orin_runtime.Prelude.Proc.{
  Proc, return, raise, read, call, assign, ensure, within_part, ◌>>=◌, ◌>>◌,
}
use excavator_orin_runtime.Motion.{
  ControlMode, zero_action, PolicyBinding, policy_binding, is_binding,
}
use excavator_orin_runtime.Motion.Authority.{
  Authority, Reason, terminal_disarm as terminal_disarm_reason, sink_faulted, terminally_disarmed,
  request_handoff as authority_handoff, request_stop as authority_stop, mode_of,
}
use excavator_orin_runtime.Commands.{synchronize}
use excavator_orin_runtime.Sink.{Telemetry, command_received, WriteResult, PendingAck, Sink}
use excavator_orin_runtime.Sink.Writes.{
  cancel_measurement, in_authority, clear_for_stop, write_locked, issue_pending_zero,
}

abbrev pub require_initialized : Proc Sink Unit
require_initialized = do
  s ← read (λ s. s)
  ensure s.synchronized (runtime_error sink_not_initialized)

abbrev pub require_operational : Proc Sink Unit
require_operational = do
  require_initialized
  s ← read (λ s. s)
  ensure (not (is_some s.terminal_error)) (runtime_error faulted_fault)
  ensure (not s.disarmed) (runtime_error sink_disarmed)

unfoldable pub is_operational : Sink → Bool
is_operational s = s.synchronized && (not s.disarmed && not (is_some s.terminal_error))

unfoldable pub initialize : Telemetry → Proc Sink ℕ
initialize frame = do
  s ← read (λ s. s)
  ensure (not s.synchronized) (runtime_error sink_initialized)
  next ←
      within_part (λ s. s.encoder) (λ e s. record s { encoder = e })
        (synchronize frame.command_rx_seq (command_received frame))
  assign (λ s. record s { latest_telemetry = some frame; synchronized = true })
  return next

unfoldable pub request_handoff : PolicyBinding → ℕ → Proc Sink ℕ
request_handoff binding now = do
  require_operational
  assign cancel_measurement
  generation ← in_authority (authority_handoff binding now)
  assign (λ s. record s { candidate_lease = none; unsafe_zero_latched = false })
  issue_pending_zero now none
  return generation

unfoldable pub request_stop : ℕ → Proc Sink ℕ
request_stop now = do
  require_operational
  generation ← in_authority (authority_stop now)
  assign clear_for_stop
  issue_pending_zero now none
  return generation

-- The stop itself, for a source that still has its generation.
source_stop : ℕ → Proc Sink Bool
source_stop now = do
  in_authority (authority_stop now)
  assign clear_for_stop
  issue_pending_zero now none
  return true

-- `binding in (snapshot.active_binding, snapshot.target_binding)`.
abbrev pub is_current : Authority → PolicyBinding → ℕ → Bool
is_current a binding generation =
    a.generation == generation
    && (is_binding a.active_binding binding || is_binding a.target_binding binding)

unfoldable pub request_source_stop : PolicyBinding → ℕ → ℕ → Proc Sink Bool
unfolding source_stop
request_source_stop binding generation now = do
  current ← call (policy_binding binding.source binding.mode)
  require_operational
  s ← read (λ s. s)
  if is_current s.authority current generation then source_stop now else return false

-- A result that comes with no write.
abbrev pub not_written : Reason → Option ControlMode → WriteResult
not_written reason mode = record {
  is_accepted = false;
  write_performed = false;
  reason = reason;
  command_seq = none;
  mode = mode;
  effective_action = zero_action;
}

abbrev pending_mode : Option PendingAck → Option ControlMode
pending_mode none = none
pending_mode (some p) = some p.mode

-- The mode of the last zero: of the source in force, or of the zero that is awaited.
abbrev pub last_mode : Sink → Option ControlMode
last_mode s =
    if is_some s.authority.active_binding
    then mode_of s.authority.active_binding
    else pending_mode s.pending_ack

unfoldable pub last_zero : ℕ → Option ControlMode → Proc Sink WriteResult
last_zero now none = return (not_written terminal_disarm_reason none)
last_zero now (some mode) = write_locked mode zero_action now terminal_disarm_reason false

disarm_now : ℕ → Proc Sink WriteResult
unfolding last_zero
disarm_now now = do
  mode ← read last_mode
  in_authority (authority_stop now)
  assign (λ s. record (clear_for_stop s) { disarmed = true })
  last_zero now mode

unfoldable pub terminal_disarm : ℕ → Proc Sink WriteResult
unfolding disarm_now
terminal_disarm now = do
  require_initialized
  s ← read (λ s. s)
  if s.disarmed || is_some s.terminal_error
      then return (
          not_written (if is_some s.terminal_error then sink_faulted else terminally_disarmed) none)
      else disarm_now now
