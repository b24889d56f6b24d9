-- ===== src/ControlPlane/Client.antt =====
-- edge_runtime/resident_control.py: the client's check of a response, `_validate_response`.
pub mod Fields
pub mod Agreement
use excavator_orin_runtime.Prelude.{
  ℕ, String, Bool, true, false, ◌&&◌, ◌||◌, not, Option, none, some, List, [], ◌∷◌, if◌then◌else◌,
  str_eq, strip, is_empty,
}
use excavator_orin_runtime.Prelude.Float.{pos, Float, is_finite}
use excavator_orin_runtime.Prelude.Fault.{
  Outcome, ok, raised, value_error, overflow_error, number_overflow, response_fields, status_value,
}
use excavator_orin_runtime.Motion.{
  HandoffPhase, idle, terminal_zero_pending, target_zero_pending, active, ControlMode,
  PolicyBinding,
}
use excavator_orin_runtime.Json.{
  Json, null, truth, int, real, text, object, Members, end, member, has_fields, is_text,
  float_of_int,
}
use excavator_orin_runtime.Protocol.{◌>>=◌, ◌>>◌, check, lookup, read_mode}
use excavator_orin_runtime.Protocol.Encode.{mode_value}
use excavator_orin_runtime.ControlPlane.{
  Command, command_name, schema_version, read_command, Status, uint64, nonnegative,
  segment_max_steps, exceeds,
}
use excavator_orin_runtime.ControlPlane.Server.{
  Response, success, failure, ErrorCode, invalid_request, command_failed, internal_error,
}

abbrev pub at_key : String → Members → Outcome Json
at_key k ms = lookup k ms (value_error response_fields)

phase_named : String → Outcome HandoffPhase
phase_named s =
    if str_eq s "idle"
    then ok idle
    else if str_eq s "terminal_zero_pending"
    then ok terminal_zero_pending
    else if str_eq s "target_zero_pending"
    then ok target_zero_pending
    else if str_eq s "active"
    then ok active
    else raised (value_error status_value)

unfoldable pub read_phase : Json → Outcome HandoffPhase
unfolding phase_named
read_phase (text s) = phase_named s
read_phase _ = raised (value_error status_value)

unfoldable pub read_flag : Json → Outcome Bool
read_flag (truth b) = ok b
read_flag _ = raised (value_error status_value)

unfoldable pub read_uint64 : Json → Outcome ℕ
read_uint64 (int (pos n)) = uint64 n
read_uint64 _ = raised (value_error status_value)

unfoldable pub read_segment_steps : Json → Outcome ℕ
read_segment_steps (int (pos n)) = segment_max_steps n
read_segment_steps _ = raised (value_error status_value)

-- `float(latency)` of an integer may raise OverflowError.
unfoldable pub read_latency : Json → Outcome Float
read_latency (int n) = elim (float_of_int n) [
  | none ↦ raised (overflow_error number_overflow)
  | some x ↦ nonnegative x
]
read_latency (real x) = nonnegative x
read_latency _ = raised (value_error status_value)

-- A source that is not blank and has no white space at its ends.
pub read_source : Json → Outcome String
read_source (text s) =
    if not (is_empty (strip s)) && str_eq s (strip s)
    then ok s
    else raised (value_error response_fields)
read_source _ = raised (value_error response_fields)

-- `_validate_binding` of a value that is not None.
unfoldable pub read_binding : Json → Outcome PolicyBinding
unfolding read_source
read_binding (object ms) = do
  check (has_fields ("source" ∷ "mode" ∷ []) ms) (value_error response_fields)
  source ← at_key "source" ms >>= read_source
  mode ← at_key "mode" ms >>= read_mode
  ok (record { source = source; mode = mode })
read_binding _ = raised (value_error response_fields)

module _ {A : Type 0} (f : Json → Outcome A) where
  -- None, or a value that is read.
  unfoldable pub read_optional : Json → Outcome (Option A)
  read_optional null = ok none
  read_optional v = do a ← f v; ok (some a)

abbrev pub status_field_names : List String
status_field_names =
    "phase" ∷ "control_generation" ∷ "active" ∷ "target" ∷ "last_handoff_latency_ms"
    ∷ "rl_is_active" ∷ "act_is_active" ∷ "act_worker_ready" ∷ "act_segment_generation"
    ∷ "act_segment_max_steps" ∷ "act_segment_completed_steps" ∷ "act_segment_complete"
    ∷ "mission_lease_active" ∷ "is_operational" ∷ []

-- `_validate_status`.
unfoldable pub validate_status : Json → Outcome Status
validate_status (object ms) = do
  check (has_fields status_field_names ms) (value_error response_fields)
  phase ← at_key "phase" ms >>= read_phase
  latency ← at_key "last_handoff_latency_ms" ms >>= read_optional read_latency
  most ← at_key "act_segment_max_steps" ms >>= read_optional read_segment_steps
  done ← at_key "act_segment_completed_steps" ms >>= read_uint64
  check (not (exceeds done most)) (value_error status_value)
  generation ← at_key "control_generation" ms >>= read_uint64
  current ← at_key "active" ms >>= read_optional read_binding
  target ← at_key "target" ms >>= read_optional read_binding
  rl ← at_key "rl_is_active" ms >>= read_flag
  act ← at_key "act_is_active" ms >>= read_flag
  ready ← at_key "act_worker_ready" ms >>= read_flag
  segment ← at_key "act_segment_generation" ms >>= read_optional read_uint64
  complete ← at_key "act_segment_complete" ms >>= read_flag
  lease ← at_key "mission_lease_active" ms >>= read_flag
  operational ← at_key "is_operational" ms >>= read_flag
  ok (record {
    phase = phase;
    control_generation = generation;
    active_binding = current;
    target_binding = target;
    last_handoff_latency_ms = latency;
    rl_is_active = rl;
    act_is_active = act;
    act_worker_ready = ready;
    act_segment_generation = segment;
    act_segment_max_steps = most;
    act_segment_completed_steps = done;
    act_segment_complete = complete;
    mission_lease_active = lease;
    is_operational = operational;
  })
validate_status _ = raised (value_error response_fields)

code_named : String → Outcome ErrorCode
code_named s =
    if str_eq s "invalid_request"
    then ok invalid_request
    else if str_eq s "command_failed"
    then ok command_failed
    else if str_eq s "internal_error"
    then ok internal_error
    else raised (value_error response_fields)

pub read_code : Json → Outcome ErrorCode
unfolding code_named
read_code (text s) = code_named s
read_code _ = raised (value_error response_fields)

pub read_message : Json → Outcome String
read_message (text s) = if is_empty s then raised (value_error response_fields) else ok s
read_message _ = raised (value_error response_fields)

-- `_validate_error`, of which the code is kept.
pub validate_error : Json → Outcome ErrorCode
unfolding read_code read_message
validate_error (object ms) = do
  check (has_fields ("code" ∷ "message" ∷ []) ms) (value_error response_fields)
  code_json ← at_key "code" ms
  message_json ← at_key "message" ms
  code ← read_code code_json
  message ← read_message message_json
  ok code
validate_error _ = raised (value_error response_fields)

abbrev is_null : Json → Bool
is_null null = true
is_null _ = false

pub successful : Members → Option Command → Outcome Response
successful ms none = raised (value_error response_fields)
successful ms (some c) = do
  error ← at_key "error" ms
  check (is_null error) (value_error response_fields)
  s ← at_key "status" ms >>= validate_status
  ok (success c s)

pub failed : Members → Option Command → Outcome Response
unfolding validate_error
failed ms command = do
  status ← at_key "status" ms
  check (is_null status) (value_error response_fields)
  code ← at_key "error" ms >>= validate_error
  ok (failure command code)

pub by_flag : Bool → Members → Option Command → Outcome Response
unfolding successful failed
by_flag true ms command = successful ms command
by_flag false ms command = failed ms command

-- `_validate_response`.
unfoldable pub validate_response : Json → Outcome Response
unfolding by_flag
validate_response (object ms) = do
  check (has_fields ("schema_version" ∷ "ok" ∷ "command" ∷ "status" ∷ "error" ∷ []) ms)
      (value_error response_fields)
  schema ← at_key "schema_version" ms
  check (is_text schema schema_version) (value_error response_fields)
  flag ← at_key "ok" ms >>= read_flag
  command ← at_key "command" ms >>= read_optional read_command
  by_flag flag ms command
validate_response _ = raised (value_error response_fields)
