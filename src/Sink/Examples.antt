-- ===== src/Sink/Examples.antt =====
-- The theorems about the sink of edge_runtime/resident_sink.py at concrete inputs: RL takes the
-- machine and drives it, and a disarm ends that.
use excavator_orin_runtime.Prelude.{ℕ, refl, true, false, none, some, List, [], ◌∷◌}
use excavator_orin_runtime.Prelude.Float.{float_zero, float_of, pos}
use excavator_orin_runtime.Motion.{
  velocity_reference, active, Action, zero_action, PolicyBinding, MotionCandidate,
}
use excavator_orin_runtime.Sink.{Sink, Telemetry, complete, new_sink}
use excavator_orin_runtime.Sink.Consistency.{IsConsistent}
use excavator_orin_runtime.Sink.Consistency.Requests.{new_sink-IsConsistent}
use excavator_orin_runtime.Sink.Wire.{Extends}
use excavator_orin_runtime.Sink.History.{
  Method, initialized, observed, handed_off, submitted, disarmed, step, run, run-IsConsistent,
}
use excavator_orin_runtime.Sink.History.Safety.{Permitted, step-Permitted}
use excavator_orin_runtime.Sink.History.Stopped.{IsStopped, disarmed_for_good}

abbrev rl : PolicyBinding
rl = record { source = "rl_follow"; mode = velocity_reference }

-- The firmware's row with the zero of RL under this sequence number.
abbrev row : ℕ → ℕ → Telemetry
row now seq = record {
  receive_ns = now;
  command_rx_seq = seq;
  command_valid = true;
  command_timed_out = false;
  control_mode = some velocity_reference;
  command_action = zero_action;
  control_enabled = true;
  estop = false;
  sensor_valid = true;
  stm32_alive = true;
  fault_flags = 0;
}

abbrev boom_up : Action
boom_up = record {
  boom = float_of (pos 1);
  stick = float_zero;
  bucket = float_zero;
  swing = float_zero;
}

abbrev forward : MotionCandidate
forward = record {
  source = "rl_follow";
  generation = 1;
  mode = velocity_reference;
  action = boom_up;
  created_ns = 130;
  valid_until_ns = 400;
  action_chunk = none;
}

abbrev first_sink : Sink
first_sink = new_sink 1000 50 "excavator" (λ _. complete)

-- RL is in force: its zero went out as sequence number 5 and was acknowledged.
abbrev to_rl : List Method
to_rl = initialized (row 100 4) ∷ handed_off rl 110 ∷ observed (row 120 5) ∷ []

run-IsConsistent_example : IsConsistent (run (to_rl) first_sink)
run-IsConsistent_example =
    run-IsConsistent to_rl first_sink (new_sink-IsConsistent 1000 50 "excavator" (λ _. complete))

-- The sink in that state.
abbrev rl_in_force : Sink
rl_in_force = record {
  max_state_age_ns = 1000;
  runtime_id = "excavator";
  port = record { outcomes = λ _. complete; attempts = 1; wire = [] };
  authority = record {
    max_future_skew_ns = 50;
    generation = 1;
    phase = active;
    active_binding = some rl;
    target_binding = none;
    requested_ns = none;
    last_latency_ns = some 10;
  };
  encoder = record { next_sequence = 6 };
  latest_telemetry = some (row 120 5);
  pending_ack = none;
  candidate_lease = none;
  measurement = none;
  first_nonzero = none;
  last_write_ns = some 110;
  last_audited_ack = some 5;
  synchronized = true;
  unsafe_zero_latched = false;
  disarmed = false;
  terminal_error = none;
  audit = [];
  samples = [];
}

abbrev stopped_sink : Sink
stopped_sink = record rl_in_force { disarmed = true }

step-Permitted_example :
    Extends
      (Permitted (submitted forward 140) rl_in_force)
      rl_in_force
      (step (submitted forward 140) rl_in_force)
step-Permitted_example = step-Permitted (submitted forward 140) rl_in_force refl

disarmed_for_good_example :
    IsStopped stopped_sink (run (submitted forward 160 ∷ disarmed 170 ∷ []) stopped_sink)
disarmed_for_good_example =
    disarmed_for_good (submitted forward 160 ∷ disarmed 170 ∷ []) stopped_sink refl refl
