-- ===== src/ControlPlane/Server.antt =====
-- `ResidentMotionControlServer` of edge_runtime/resident_control.py: what one request does to the
-- core, and its response. `resident_act_activation_gate` is that of orin_state_sender.py.
pub mod Serving
pub mod Expiry
pub mod Accepts
use excavator_orin_runtime.Prelude.{
  ℕ, String, Bool, true, false, ◌&&◌, ◌||◌, not, Option, none, some, if◌then◌else◌, is_some,
}
use excavator_orin_runtime.Prelude.Float.{Float}
use excavator_orin_runtime.Prelude.Fault.{
  Error, Outcome, ok, raised, value_error, runtime_error, os_error, worker_not_ready, rl_busy,
  steps_missing, executor_missing, request_json,
}
use excavator_orin_runtime.Prelude.Proc.{Proc, return, raise, read, call, ensure, ◌>>=◌, ◌>>◌}
use excavator_orin_runtime.Json.{Json, unique_keys}
use excavator_orin_runtime.Core.{Core}
use excavator_orin_runtime.Core.Control.{renew_mission_lease, control_status_snapshot}
use excavator_orin_runtime.Core.Control as Core_control
use excavator_orin_runtime.ControlPlane.{
  Command, status, renew_lease, activate_rl, activate_act, terminal_disarm, Request, Status,
  validate_request, status_of,
}

-- What the callables of the server answer: None stands for one that raises or gives no Boolean.
pub record Probes : Type 0 where
  pub act_worker_ready : Option Bool
  pub rl_behavior_idle : Option Bool

-- `_act_worker_is_ready` and `_rl_behavior_is_idle`.
abbrev pub answered : Option Bool → Bool
answered none = false
answered (some b) = b

-- The gate of an activation of ACT: none, or that of the RL executor, which is missing, or answers
-- `run_when_idle` (edge_runtime/remote.py) with a refusal or by running the operation.
pub data Gate : Type 0 where
  no_gate no_executor rl_executor_busy rl_executor_idle : Gate

-- The readings of the clock that the core takes in the course of a request.
pub record Clock : Type 0 where
  pub at_renewal : ℕ
  pub at_command : ℕ
  pub at_status : ℕ

pub record Settings : Type 0 where
  pub mission_lease_ms : ℕ
  pub ns_to_ms : ℕ → Float

-- The closure `activate_act` of `_execute`.
abbrev pub renew_and_activate : Settings → ℕ → Clock → Proc Core ℕ
renew_and_activate s steps t = do
  renew_mission_lease s.mission_lease_ms t.at_renewal
  Core_control.activate_act (some steps) t.at_command

-- `self._activate_act_while_rl_idle(activate_act)`, or the check without a gate.
pub gated : Gate → Probes → Proc Core ℕ → Proc Core ℕ
gated no_gate p m = do ensure (answered p.rl_behavior_idle) (runtime_error rl_busy); m
gated no_executor p m = raise (runtime_error executor_missing)
gated rl_executor_busy p m = raise (runtime_error rl_busy)
gated rl_executor_idle p m = m

pub required_steps : Option ℕ → Proc Core ℕ
required_steps none = raise (value_error steps_missing)
required_steps (some n) = return n

-- The branch of the command in `_execute`.
pub obey : Settings → Gate → Probes → Clock → Command → Option ℕ → Proc Core Unit
unfolding gated required_steps
obey s g p t status steps = return tt
obey s g p t renew_lease steps = renew_mission_lease s.mission_lease_ms t.at_renewal
obey s g p t activate_rl steps = do
  renew_mission_lease s.mission_lease_ms t.at_renewal
  Core_control.activate_rl t.at_command
  return tt
obey s g p t activate_act steps = do
  ensure (answered p.act_worker_ready) (runtime_error worker_not_ready)
  n ← required_steps steps
  gated g p (renew_and_activate s n t)
  return tt
obey s g p t terminal_disarm steps = do Core_control.terminal_disarm t.at_command; return tt

-- `_execute`.
unfoldable pub execute : Settings → Gate → Probes → Clock → Request → Proc Core Status
unfolding obey
execute s g p t r = do
  obey s g p t r.command r.max_steps
  c ← read (λ (c : Core). c)
  call (status_of s.ns_to_ms (control_status_snapshot t.at_status c) (answered p.act_worker_ready))

pub data ErrorCode : Type 0 where
  invalid_request command_failed internal_error : ErrorCode

-- A response: the message of an error follows from its code and command.
pub data Response : Type 0 where
  success : Command → Status → Response
  failure : Option Command → ErrorCode → Response

-- Which clause of `_serve_one` an exception falls under.
abbrev pub code_of : Error → ErrorCode
code_of (value_error f) = command_failed
code_of (runtime_error f) = command_failed
code_of (os_error f) = command_failed
code_of _ = internal_error

abbrev pub answer : Command → Outcome Status → Response
answer command (ok s) = success command s
answer command (raised e) = failure (some command) (code_of e)

-- The request of a frame; none where the frame is cut off, too large, or no strict JSON.
unfoldable pub request_of : Option Json → Outcome Request
request_of none = raised (value_error request_json)
request_of (some v) =
    if unique_keys v then validate_request v else raised (value_error request_json)

unfoldable pub respond : Settings → Gate → Probes → Clock → Outcome Request → Core → Response × Core
respond s g p t (raised e) c = (failure none invalid_request, c)
respond s g p t (ok r) c = let (o, c') = execute s g p t r c in (answer r.command o, c')

-- `_serve_one`, up to the bytes that are received and sent.
unfoldable pub serve_one : Settings → Gate → Probes → Clock → Option Json → Core → Response × Core
serve_one s g p t frame c = respond s g p t (request_of frame) c
