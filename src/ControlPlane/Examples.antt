-- ===== src/ControlPlane/Examples.antt =====
-- The theorems about edge_runtime/resident_control.py at concrete inputs: a request that activates
-- RL on a fresh core, and a frame that arrives in pieces.
use excavator_orin_runtime.Prelude.{
  ℕ, ◌≡◌, refl, true, false, none, some, List, [], ◌∷◌, str_eq, arith,
}
use excavator_orin_runtime.Prelude.Float.{float_zero}
use excavator_orin_runtime.Prelude.Fault.{ok}
use excavator_orin_runtime.Json.{unique_keys, field, has_fields, Json, text, object, end, member}
use excavator_orin_runtime.Motion.{velocity_reference, zero_action, idle}
use excavator_orin_runtime.Sink.{Telemetry, complete, new_sink}
use excavator_orin_runtime.Sink.Requests.{initialize, is_operational}
use excavator_orin_runtime.Core.{Core, fresh_core}
use excavator_orin_runtime.ControlPlane.{
  status_of, uint64, Status, renew_lease, command_name, activate_rl, schema_version,
  validate_request, read_command, request_max_steps,
}
use excavator_orin_runtime.ControlPlane.Server.{
  Settings, Probes, no_gate, rl_executor_idle, Clock, success, request_of, serve_one, respond,
  execute,
}
use excavator_orin_runtime.Commands.{synchronize}
use excavator_orin_runtime.Sink.Consistency.Requests.{
  new_sink-IsConsistent, initialize-IsConsistent,
}
use excavator_orin_runtime.Sink.History.Stopped.{IsStopped}
use excavator_orin_runtime.Core.Lease.{IsSound}
use excavator_orin_runtime.Core.Calls.{renewed}
use excavator_orin_runtime.Core.Control.{
  renew_mission_lease, control_status_snapshot, tick, mission_lease_is_active,
}
use excavator_orin_runtime.ControlPlane.Server.Expiry.{
  Event, called, requested, all_happen, no_request_revives,
}
use excavator_orin_runtime.ControlPlane.Server.Accepts.{UnderLease, success_under_lease}
use excavator_orin_runtime.ControlPlane.Server.Serving.{Served, serve_one-Served}
use excavator_orin_runtime.ControlPlane.Encode.{response_value}
use excavator_orin_runtime.ControlPlane.Client.{validate_response}
use excavator_orin_runtime.ControlPlane.Client.Agreement.{validate_response-serve}
use excavator_orin_runtime.ControlPlane.Frames.{
  Arrivals, timed_out, piece, send_frame, receive_frame, receive_exact,
}
use excavator_orin_runtime.ControlPlane.Frames.Transfer.{bytes_of, Delivers, receive_exact-Delivers}
use excavator_orin_runtime.ControlPlane.Frames.RoundTrip.{receive_frame-send}

abbrev settings : Settings
settings = record { mission_lease_ms = 3000; ns_to_ms = λ _. float_zero }

abbrev all_ready : Probes
all_ready = record { act_worker_ready = some true; rl_behavior_idle = some true }

abbrev clock : Clock
clock = record { at_renewal = 100; at_command = 110; at_status = 120 }

abbrev activation : Json
activation = object (
    member "schema_version" (text schema_version)
      (member "command" (text (command_name activate_rl)) end))

-- The pieces of a frame with the payload [65, 66, 67], and of the next frame's first byte.
abbrev pieces : Arrivals
pieces = piece 0 (0 ∷ []) (piece 0 (3 ∷ 65 ∷ []) (piece 66 (67 ∷ 0 ∷ []) timed_out))

abbrev payload : List ℕ
payload = 65 ∷ 66 ∷ 67 ∷ []

abbrev frame : List ℕ
frame = 0 ∷ 0 ∷ 0 ∷ 3 ∷ payload

abbrev first_row : Telemetry
first_row = record {
  receive_ns = 100;
  command_rx_seq = 4;
  command_valid = true;
  command_timed_out = false;
  control_mode = some velocity_reference;
  command_action = zero_action;
  control_enabled = true;
  estop = false;
  sensor_valid = true;
  stm32_alive = true;
  fault_flags = 0;
}

abbrev ready_core : Core
ready_core =
    fresh_core none 10 100 (initialize first_row (new_sink 1000 50 "excavator" (λ _. complete))).1

request_of-activation :
    request_of (some activation) ≡ ok (record { command = activate_rl; max_steps = none })
unfolding request_of validate_request unique_keys str_eq field read_command has_fields
    request_max_steps
request_of-activation = refl

serve_one-Served_example :
    Served settings no_gate all_ready clock ready_core
      (request_of (some activation))
      (serve_one settings no_gate all_ready clock (some activation) ready_core)
serve_one-Served_example =
    serve_one-Served settings no_gate all_ready clock (some activation) ready_core

validate_response-serve_example :
    validate_response (
      response_value "rejected"
        (serve_one settings rl_executor_idle all_ready clock (some activation) ready_core).0)
    ≡ ok (serve_one settings rl_executor_idle all_ready clock (some activation) ready_core).0
validate_response-serve_example =
    validate_response-serve settings rl_executor_idle all_ready clock (some activation) ready_core
      "rejected" refl

receive_exact-Delivers_example : Delivers 4 [] pieces (receive_exact 4 pieces)
receive_exact-Delivers_example = receive_exact-Delivers 4 pieces

frame-send : send_frame payload ≡ ok frame
unfolding send_frame
frame-send = refl

receive_frame-send_example :
    ((receive_frame pieces).0 ≡ ok payload) × (bytes_of (receive_frame pieces).1 ≡ 0 ∷ [])
receive_frame-send_example = receive_frame-send payload frame (0 ∷ []) pieces frame-send refl

abbrev leased_core : Core
leased_core = record ready_core { lease_deadline_ns = some 600 }

leased_core-IsSound : IsSound leased_core
unfolding initialize new_sink synchronize
leased_core-IsSound = record {
  consistent =
      initialize-IsConsistent (new_sink 1000 50 "excavator" (λ _. complete))
        (new_sink-IsConsistent 1000 50 "excavator" (λ _. complete)) first_row;
  leased = λ _. refl;
  ended = λ h. absurd (ground (arith, h));
}

abbrev afterwards : List Event
afterwards = requested no_gate all_ready clock (some activation) ∷ called (renewed 500 720) ∷ []

no_request_revives_example :
    let c' = (tick 700 leased_core).1 in
    IsStopped c'.sink (all_happen settings afterwards c').sink
    × (mission_lease_is_active 800 (all_happen settings afterwards c') ≡ false)
no_request_revives_example =
    no_request_revives settings leased_core 700 afterwards 800 leased_core-IsSound refl

abbrev renewal : Json
renewal = object (
    member "schema_version" (text schema_version)
      (member "command" (text (command_name renew_lease)) end))

abbrev renewed_status : Status
renewed_status = record {
  phase = idle;
  control_generation = 0;
  active_binding = none;
  target_binding = none;
  last_handoff_latency_ms = none;
  rl_is_active = false;
  act_is_active = false;
  act_worker_ready = true;
  act_segment_generation = none;
  act_segment_max_steps = none;
  act_segment_completed_steps = 0;
  act_segment_complete = false;
  mission_lease_active = true;
  is_operational = true;
}

renewal-success :
    (serve_one settings no_gate all_ready clock (some renewal) ready_core).0
    ≡ success renew_lease renewed_status
unfolding serve_one respond execute request_of unique_keys str_eq validate_request field
    read_command has_fields request_max_steps renew_mission_lease is_operational initialize new_sink
    synchronize status_of uint64 control_status_snapshot
renewal-success = refl

success_under_lease_example : UnderLease settings clock ready_core
success_under_lease_example =
    success_under_lease settings no_gate all_ready clock (some renewal) ready_core renew_lease
      renewed_status refl renewal-success
