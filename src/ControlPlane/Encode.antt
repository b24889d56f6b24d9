-- ===== src/ControlPlane/Encode.antt =====
-- edge_runtime/resident_control.py: the response as JSON, `_success_response` and `_error_response`.
use excavator_orin_runtime.Prelude.{ℕ, String, true, false, Option, none, some}
use excavator_orin_runtime.Prelude.Float.{pos, Float}
use excavator_orin_runtime.Motion.{
  HandoffPhase, idle, terminal_zero_pending, target_zero_pending, active, PolicyBinding,
}
use excavator_orin_runtime.Json.{Json, null, truth, int, real, text, object, end, member}
use excavator_orin_runtime.Protocol.Encode.{mode_value}
use excavator_orin_runtime.ControlPlane.{Command, command_name, schema_version, Status}
use excavator_orin_runtime.ControlPlane.Server.{
  Response, success, failure, ErrorCode, invalid_request, command_failed, internal_error,
}

-- `HandoffPhase.value`.
abbrev pub phase_value : HandoffPhase → String
phase_value idle = "idle"
phase_value terminal_zero_pending = "terminal_zero_pending"
phase_value target_zero_pending = "target_zero_pending"
phase_value active = "active"

-- None, or the value.
abbrev pub optional_value : {A : Type 0} → (A → Json) → Option A → Json
optional_value f none = null
optional_value f (some a) = f a

abbrev pub binding_value : PolicyBinding → Json
binding_value b =
    object (member "source" (text b.source) (member "mode" (text (mode_value b.mode)) end))

abbrev pub number_value : ℕ → Json
number_value n = int (pos n)

abbrev pub float_value : Float → Json
float_value x = real x

-- The dict that `_status` returns.
abbrev pub status_value_of : Status → Json
status_value_of s = object (
    member "phase" (text (phase_value s.phase)) (
      member "control_generation" (int (pos s.control_generation)) (
        member "active" (optional_value binding_value s.active_binding) (
          member "target" (optional_value binding_value s.target_binding) (
            member "last_handoff_latency_ms" (optional_value float_value s.last_handoff_latency_ms)
              (member "rl_is_active" (truth s.rl_is_active) (
                member "act_is_active" (truth s.act_is_active) (
                  member "act_worker_ready" (truth s.act_worker_ready) (
                    member "act_segment_generation"
                      (optional_value number_value s.act_segment_generation)
                      (member "act_segment_max_steps"
                        (optional_value number_value s.act_segment_max_steps)
                        (member "act_segment_completed_steps"
                          (int (pos s.act_segment_completed_steps))
                          (member "act_segment_complete" (truth s.act_segment_complete) (
                            member "mission_lease_active" (truth s.mission_lease_active)
                              (member "is_operational" (truth s.is_operational) end))))))))))))))

abbrev pub code_value : ErrorCode → String
code_value invalid_request = "invalid_request"
code_value command_failed = "command_failed"
code_value internal_error = "internal_error"

abbrev pub command_value : Option Command → Json
command_value none = null
command_value (some c) = text (command_name c)

-- `_success_response` and `_error_response`; the message is not empty.
abbrev pub response_value : String → Response → Json
response_value message (success c s) = object (
    member "schema_version" (text schema_version) (
      member "ok" (truth true) (
        member "command" (text (command_name c))
          (member "status" (status_value_of s) (member "error" null end)))))
response_value message (failure c code) = object (
    member "schema_version" (text schema_version) (
      member "ok" (truth false) (
        member "command" (command_value c) (
          member "status" null (
            member "error"
              (object
                (member "code" (text (code_value code)) (member "message" (text message) end)))
              end)))))
