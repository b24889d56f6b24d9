-- ===== src/Core/Control.antt =====
-- The methods of `ResidentMotionCore` in edge_runtime/resident_core.py. Times are arguments: each
-- method gets the reading of the clock that it would take.
use excavator_orin_runtime.Prelude.{
  ℕ, ◌+◌, ◌*◌, ◌-◌, Bool, true, false, ◌&&◌, ◌||◌, not, Option, none, some, ◌∷◌, if◌then◌else◌, leb,
  ltb, ◌==◌, is_some,
}
use excavator_orin_runtime.Prelude.Fault.{
  value_error, runtime_error, core_disarmed, lease_range, lease_expired, budget_changed,
}
use excavator_orin_runtime.Prelude.Proc.{
  Proc, return, raise, read, call, assign, ensure, ◌>>=◌, ◌>>◌,
}
use excavator_orin_runtime.Motion.{
  ControlMode, manual_action, mode_eq, is_zero, PolicyBinding, is_binding, MotionCandidate,
}
use excavator_orin_runtime.Motion.Authority.{
  Authority, phase_active, Reason, terminal_disarm as terminal_disarm_reason,
  act_segment_early_complete, act_segment_budget_reached,
}
use excavator_orin_runtime.Json.{Payload}
use excavator_orin_runtime.Protocol.{decode_motion_candidate}
use excavator_orin_runtime.Sink.{Telemetry, WriteResult}
use excavator_orin_runtime.Sink.Requests.{is_operational, not_written, request_source_stop}
use excavator_orin_runtime.Sink.Requests as Sink_requests
use excavator_orin_runtime.Sink.Observe as Sink_observe
use excavator_orin_runtime.Sink.Submit as Sink_submit
use excavator_orin_runtime.Ingress.{begin_activation, request_stop}
use excavator_orin_runtime.Ingress.Velocity as Velocity
use excavator_orin_runtime.Ingress.Candidate as Candidate
use excavator_orin_runtime.Core.{
  Core, Tracker, new_tracker, CompletionReason, step_budget, deadzone_chunk, rl_binding,
  act_binding, within_deadzone, step_budget_of, min_mission_lease_ms, max_mission_lease_ms, in_sink,
  in_rl, in_act, set_segment, not_due,
}
use excavator_orin_runtime.Core.Segment.{advance}

-- `_binding_is_active`.
abbrev pub binding_is_active : PolicyBinding → Core → Bool
binding_is_active b c =
    phase_active c.sink.authority.phase && is_binding c.sink.authority.active_binding b

abbrev before : ℕ → Option ℕ → Bool
before now none = false
before now (some deadline) = ltb now deadline

-- `mission_lease_is_active`.
unfoldable pub mission_lease_is_active : ℕ → Core → Bool
mission_lease_is_active now c =
    is_some c.lease_deadline_ns && (is_operational c.sink && before now c.lease_deadline_ns)

-- `ResidentControlSnapshot`, all read under one lock.
pub record ControlSnapshot : Type 0 where
  pub motion : Authority
  pub segment : Tracker
  pub rl_is_active : Bool
  pub act_is_active : Bool
  pub mission_lease_active : Bool
  pub operational : Bool

unfoldable pub control_status_snapshot : ℕ → Core → ControlSnapshot
unfolding mission_lease_is_active
control_status_snapshot now c = record {
  motion = c.sink.authority;
  segment = c.segment;
  rl_is_active = binding_is_active rl_binding c;
  act_is_active = binding_is_active act_binding c;
  mission_lease_active = mission_lease_is_active now c;
  operational = is_operational c.sink;
}

-- `active_act_generation`.
unfoldable pub active_act_generation : Core → Option ℕ
active_act_generation c =
    if binding_is_active act_binding c then some c.sink.authority.generation else none

unfoldable pub initialize : Telemetry → Proc Core ℕ
initialize frame = in_sink (Sink_requests.initialize frame)

abbrev is_seq : Option ℕ → ℕ → Bool
is_seq none n = false
is_seq (some m) n = n == m

abbrev in_mode : Option ControlMode → ControlMode → Bool
in_mode none m = false
in_mode (some x) m = mode_eq x m

abbrev same_mode : Option ControlMode → Option ControlMode → Bool
same_mode frame none = false
same_mode frame (some m) = in_mode frame m

-- `_terminal_zero_ack_matches`.
abbrev zero_ack_matches : Option WriteResult → Telemetry → Bool
zero_ack_matches none f = false
zero_ack_matches (some r) f =
    r.write_performed
    && (is_zero r.effective_action
        && (is_seq r.command_seq f.command_rx_seq
            && (f.command_valid
                && (not f.command_timed_out
                    && (same_mode f.control_mode r.mode && is_zero f.command_action)))))

-- `_act_segment_acknowledged`.
unfoldable pub segment_acknowledged : Tracker → Telemetry → Bool
segment_acknowledged t f =
    t.handoff_due
    && (not t.complete
        && (is_some t.final_action
            && (is_seq t.final_seq f.command_rx_seq
                && (f.command_valid
                    && (not f.command_timed_out && in_mode f.control_mode manual_action)))))

abbrev pub is_generation : Option ℕ → ℕ → Bool
is_generation none g = false
is_generation (some x) g = x == g

-- The completion of a segment hands the machine to RL.
unfoldable pub complete_segment : Telemetry → Proc Core Unit
complete_segment frame = do
  segment ← read (λ c. c.segment)
  in_rl (begin_activation rl_binding frame.receive_ns)
  assign (λ c. record c { segment = record segment { complete = true; handoff_due = false } })

unfoldable pub observe_telemetry : Telemetry → Proc Core Unit
unfolding segment_acknowledged
observe_telemetry frame = do
  in_sink (Sink_observe.observe_telemetry frame)
  assign (λ c. record c {
    zero_acknowledged = zero_ack_matches c.disarm_result frame || c.zero_acknowledged;
  })
  c ← read (λ c. c)
  if segment_acknowledged c.segment frame
        && (binding_is_active act_binding c
            && is_generation c.segment.generation c.sink.authority.generation)
      then complete_segment frame
      else return tt

unfoldable pub invalidate_telemetry : ℕ → Bool → Proc Core Unit
invalidate_telemetry now alive = in_sink (Sink_observe.invalidate_telemetry now alive)

unfoldable pub activate_rl : ℕ → Proc Core ℕ
activate_rl now = do
  generation ← in_rl (begin_activation rl_binding now)
  assign (set_segment not_due)
  return generation

abbrev same_budget : Option ℕ → Option ℕ → Bool
same_budget none none = true
same_budget (some a) (some b) = a == b
same_budget none (some b) = false
same_budget (some a) none = false

-- A segment of the same generation keeps its budget; another generation starts a new segment.
segment_for : ℕ → Option ℕ → Proc Core ℕ
segment_for generation steps = do
  current ← read (λ c. c.segment)
  if is_generation current.generation generation
      then (do
        ensure (same_budget current.max_steps steps) (value_error budget_changed)
        return generation)
      else (do assign (set_segment (λ _. new_tracker (some generation) steps)); return generation)

unfoldable pub activate_act : Option ℕ → ℕ → Proc Core ℕ
unfolding segment_for
activate_act max_steps now = do
  steps ← call (step_budget_of max_steps)
  generation ← in_act (begin_activation act_binding now)
  segment_for generation steps

abbrev is_early : Option CompletionReason → Bool
is_early none = false
is_early (some deadzone_chunk) = true
is_early (some step_budget) = false

abbrev skipped : Tracker → Option ℕ
skipped t = if t.handoff_due then some (left t.max_steps) else none
  where
    left : Option ℕ → ℕ
    left o = elim o [ none ↦ 0 | some m ↦ m - t.completed_steps ]

-- A step of the segment, with its audit.
unfoldable pub take_step : MotionCandidate → WriteResult → ℕ → Core → Core
take_step m r now c =
    let t = advance c.segment r m.action_chunk c.contract c.chunk_steps c.min_steps in
    record c {
      segment = t;
      step_audit =
          record {
            time_ns = now;
            command_seq = r.command_seq;
            action = r.effective_action;
            all_axes_in_deadzone = within_deadzone r.effective_action c.contract;
            segment = t;
            skipped_budget_steps = skipped t;
          }
          ∷ c.step_audit;
    }

step_taken : Payload → WriteResult → ℕ → Proc Core WriteResult
step_taken p r now = do
  c ← read (λ c. c)
  if not r.is_accepted || not (is_some c.segment.generation)
      then return r
      else (do m ← call (decode_motion_candidate p); assign (take_step m r now); return r)

unfoldable pub submit_act : Payload → ℕ → Proc Core WriteResult
unfolding step_taken
submit_act p now = do
  c ← read (λ c. c)
  if c.segment.handoff_due
      then return (
          not_written
            (if is_early c.segment.completion_reason
              then act_segment_early_complete
              else act_segment_budget_reached)
            (some manual_action))
      else (do r ← in_act (Candidate.send act_binding p now); step_taken p r now)

-- `rl_action_sink.send`.
unfoldable pub submit_rl : Payload → ℕ → ℕ → Proc Core WriteResult
submit_rl p now wall = in_rl (Velocity.send rl_binding p now wall)

-- `rl_action_sink.request_stop`.
unfoldable pub stop_rl : ℕ → Proc Core Bool
stop_rl now = in_rl (request_stop rl_binding now)

revoke_worker : Option ℕ → ℕ → Proc Core Bool
revoke_worker none now = return false
revoke_worker (some g) now = do
  revoked ← in_sink (request_source_stop act_binding g now)
  assign (λ c. if revoked then set_segment not_due c else c)
  return revoked

unfoldable pub notify_act_worker_disconnected : ℕ → Proc Core Bool
unfolding revoke_worker
notify_act_worker_disconnected now = do
  c ← read (λ c. c)
  if not (is_operational c.sink) then return false else revoke_worker c.segment.generation now

-- The result that needs no acknowledgement: nothing was moving, so no zero was written.
abbrev needs_no_zero : WriteResult → Bool
needs_no_zero r =
    not r.write_performed
    && (is_disarm r.reason
        && (not (is_some r.command_seq) && (not (is_some r.mode) && is_zero r.effective_action)))
  where
    is_disarm : Reason → Bool
    is_disarm x = elim x [ terminal_disarm_reason ↦ true | _ ↦ false ]

first_disarm : ℕ → Proc Core WriteResult
first_disarm now = do
  assign (λ c. record (set_segment not_due c) { lease_deadline_ns = none })
  r ← in_sink (Sink_requests.terminal_disarm now)
  assign (λ c. record c { disarm_result = some r; zero_acknowledged = needs_no_zero r })
  return r

abbrev disarm_or : Option WriteResult → ℕ → Proc Core WriteResult
disarm_or none now = first_disarm now
disarm_or (some r) now = return r

unfoldable pub terminal_disarm : ℕ → Proc Core WriteResult
unfolding first_disarm
terminal_disarm now = do earlier ← read (λ c. c.disarm_result); disarm_or earlier now

abbrev pub lease_over : Option ℕ → ℕ → Bool
lease_over none now = false
lease_over (some deadline) now = leb deadline now

unfoldable pub renew_mission_lease : ℕ → ℕ → Proc Core Unit
renew_mission_lease lease_ms now = do
  ensure (leb min_mission_lease_ms lease_ms && leb lease_ms max_mission_lease_ms)
      (value_error lease_range)
  c ← read (λ c. c)
  ensure (is_operational c.sink) (runtime_error core_disarmed)
  if lease_over c.lease_deadline_ns now
      then (do terminal_disarm now; raise (runtime_error lease_expired))
      else assign (λ c. record c { lease_deadline_ns = some (now + lease_ms * 1000000) })

unfoldable pub tick : ℕ → Proc Core (Option WriteResult)
tick now = do
  c ← read (λ c. c)
  if lease_over c.lease_deadline_ns now
      then (do
        assign (λ c. record c { lease_deadline_ns = none })
        r ← terminal_disarm now
        return (some r))
      else in_sink (Sink_submit.tick now)
