-- ===== src/ControlPlane.antt =====
-- edge_runtime/resident_control.py: the local control plane of the motion core. The commands, the
-- requests, and the status that a response carries.
mod Examples
pub mod Server
pub mod Encode
pub mod Client
pub mod Frames
use excavator_orin_runtime.Prelude.{
  ℕ, ◌-◌, ◌^◌, String, Bool, true, false, ◌&&◌, ◌||◌, not, Option, none, some, List, [], ◌∷◌,
  if◌then◌else◌, ltb, leb, str_eq, strip, is_empty,
}
use excavator_orin_runtime.Prelude.Float.{ℤ, pos, Float, float_zero, float_le, is_finite}
use excavator_orin_runtime.Prelude.Fault.{
  Outcome, ok, raised, value_error, request_fields, request_schema, command_unknown,
  max_steps_range, status_value,
}
use excavator_orin_runtime.Motion.{
  HandoffPhase, idle, terminal_zero_pending, target_zero_pending, active, PolicyBinding,
  policy_binding, uint64_max,
}
use excavator_orin_runtime.Motion.Authority.{Authority}
use excavator_orin_runtime.Json.{Json, null, int, text, object, Members, field, has_fields, is_text}
use excavator_orin_runtime.Protocol.{◌>>=◌, ◌>>◌, check}
use excavator_orin_runtime.Core.{Core, Tracker}
use excavator_orin_runtime.Core.Control.{ControlSnapshot, control_status_snapshot}

pub data Command : Type 0 where
  status renew_lease activate_rl activate_act terminal_disarm : Command

abbrev pub command_name : Command → String
command_name status = "status"
command_name renew_lease = "renew_lease"
command_name activate_rl = "activate_rl"
command_name activate_act = "activate_act"
command_name terminal_disarm = "terminal_disarm"

abbrev pub schema_version : String
schema_version = "resident_motion_control.v1"

command_named : String → Outcome Command
command_named s =
    if str_eq s "status"
    then ok status
    else if str_eq s "renew_lease"
    then ok renew_lease
    else if str_eq s "activate_rl"
    then ok activate_rl
    else if str_eq s "activate_act"
    then ok activate_act
    else if str_eq s "terminal_disarm"
    then ok terminal_disarm
    else raised (value_error command_unknown)

-- `_command`.
unfoldable pub read_command : Json → Outcome Command
unfolding command_named
read_command (text s) = command_named s
read_command _ = raised (value_error command_unknown)

pub record Request : Type 0 where
  pub command : Command
  pub max_steps : Option ℕ

-- The limit of a request and of a segment: an integer in [1, 2000].
unfoldable pub read_max_steps : Json → Outcome ℕ
read_max_steps (int (pos n)) =
    if leb 1 n && leb n 2000 then ok n else raised (value_error max_steps_range)
read_max_steps _ = raised (value_error max_steps_range)

abbrev pub or_null : Option Json → Json
or_null none = null
or_null (some v) = v

steps_for : Json → Outcome (Option ℕ)
steps_for v = do n ← read_max_steps v; ok (some n)

no_steps : Json → Outcome (Option ℕ)
no_steps null = ok none
no_steps _ = raised (value_error max_steps_range)

-- `_request_max_steps`.
unfoldable pub request_max_steps : Command → Json → Outcome (Option ℕ)
unfolding steps_for no_steps
request_max_steps activate_act v = steps_for v
request_max_steps _ v = no_steps v

abbrev pub request_field_names : Command → List String
request_field_names activate_act = "schema_version" ∷ "command" ∷ "max_steps" ∷ []
request_field_names _ = "schema_version" ∷ "command" ∷ []

-- `_validate_request`.
unfoldable pub validate_request : Json → Outcome Request
validate_request (object ms) = do
  check (is_text (or_null (field "schema_version" ms)) schema_version) (value_error request_schema)
  command ← read_command (or_null (field "command" ms))
  check (has_fields (request_field_names command) ms) (value_error request_fields)
  steps ← request_max_steps command (or_null (field "max_steps" ms))
  ok (record { command = command; max_steps = steps })
validate_request _ = raised (value_error request_fields)

-- The status of a response, as `_status` makes it.
pub record Status : Type 0 where
  pub phase : HandoffPhase
  pub control_generation : ℕ
  pub active_binding : Option PolicyBinding
  pub target_binding : Option PolicyBinding
  pub last_handoff_latency_ms : Option Float
  pub rl_is_active : Bool
  pub act_is_active : Bool
  pub act_worker_ready : Bool
  pub act_segment_generation : Option ℕ
  pub act_segment_max_steps : Option ℕ
  pub act_segment_completed_steps : ℕ
  pub act_segment_complete : Bool
  pub mission_lease_active : Bool
  pub is_operational : Bool

-- `_uint64`, of a natural number.
unfoldable pub uint64 : ℕ → Outcome ℕ
uint64 n = if leb n uint64_max then ok n else raised (value_error status_value)

module _ {A : Type 0} (f : A → Outcome A) where
  -- None, or a value that passes.
  abbrev pub optional : Option A → Outcome (Option A)
  optional none = ok none
  optional (some a) = f a >>= λ b. ok (some b)

-- The latency: finite and not negative.
unfoldable pub nonnegative : Float → Outcome Float
nonnegative x =
    if is_finite x && float_le float_zero x then ok x else raised (value_error status_value)

-- A budget of a segment: in [1, 2000].
unfoldable pub segment_max_steps : ℕ → Outcome ℕ
segment_max_steps n = if leb 1 n && leb n 2000 then ok n else raised (value_error status_value)

-- `_binding`.
unfoldable pub binding : PolicyBinding → Outcome PolicyBinding
binding b = policy_binding b.source b.mode

abbrev pub exceeds : ℕ → Option ℕ → Bool
exceeds done none = false
exceeds done (some most) = ltb most done

abbrev pub in_ms : (ℕ → Float) → Option ℕ → Option Float
in_ms ms none = none
in_ms ms (some ns) = some (ms ns)

-- `_status`, of the snapshot that the core takes under its lock. The milliseconds of a latency are
-- floating-point arithmetic, and an argument.
unfoldable pub status_of : (ns_to_ms : ℕ → Float) → ControlSnapshot → Bool → Outcome Status
status_of ns_to_ms s ready = do
  generation ← uint64 s.motion.generation
  latency ← optional nonnegative (in_ms ns_to_ms s.motion.last_latency_ns)
  most ← optional segment_max_steps s.segment.max_steps
  done ← uint64 s.segment.completed_steps
  check (not (exceeds done most)) (value_error status_value)
  current ← optional binding s.motion.active_binding
  target ← optional binding s.motion.target_binding
  segment ← optional uint64 s.segment.generation
  ok (record {
    phase = s.motion.phase;
    control_generation = generation;
    active_binding = current;
    target_binding = target;
    last_handoff_latency_ms = latency;
    rl_is_active = s.rl_is_active;
    act_is_active = s.act_is_active;
    act_worker_ready = ready;
    act_segment_generation = segment;
    act_segment_max_steps = most;
    act_segment_completed_steps = done;
    act_segment_complete = s.segment.complete;
    mission_lease_active = s.mission_lease_active;
    is_operational = s.operational;
  })
