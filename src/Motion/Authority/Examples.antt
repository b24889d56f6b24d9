-- ===== src/Motion/Authority/Examples.antt =====
-- The theorems about the authority at concrete inputs: from RL in force to ACT.
use excavator_orin_runtime.Prelude.{
  ◌≤◌, ◌≡◌, refl, true, none, some, List, [], ◌∷◌, ◌++◌, arith, ◌↔◌, if◌then◌else◌, is_some,
}
use excavator_orin_runtime.Prelude.Float.{float_eq}
use excavator_orin_runtime.Motion.{
  ControlMode, manual_action, velocity_reference, active, zero_action, PolicyBinding,
  MotionCandidate, policy_binding, is_zero, action_eq,
}
use excavator_orin_runtime.Motion.Authority.{Authority, route, request_handoff, acknowledge_zero}
use excavator_orin_runtime.Motion.Authority.Coherence.{IsCoherent}
use excavator_orin_runtime.Motion.Authority.Calls.{
  Call, handoff, acknowledge, step, run, zeros_taken, run-generation,
}
use excavator_orin_runtime.Motion.Authority.Routing.{IsAdmissible, route_lem}
use excavator_orin_runtime.Motion.Authority.Handoff.{
  switch_needs_zeros, acknowledge_pending, handoff_completes,
}

abbrev rl : PolicyBinding
rl = record { source = "rl_follow"; mode = velocity_reference }

abbrev act : PolicyBinding
act = record { source = "act_dig"; mode = manual_action }

abbrev rl_in_force : Authority
rl_in_force = record {
  max_future_skew_ns = 5000000;
  generation = 1;
  phase = active;
  active_binding = some rl;
  target_binding = none;
  requested_ns = none;
  last_latency_ns = none;
}

rl_in_force-IsCoherent : IsCoherent rl_in_force
rl_in_force-IsCoherent = ground arith

abbrev to_act : List Call
to_act =
    handoff act 100
    ∷ acknowledge 2 velocity_reference zero_action 110
    ∷ acknowledge 2 manual_action zero_action 120
    ∷ []

switch_needs_zeros_example :
    (between : List ControlMode) × (zeros_taken to_act rl_in_force
      ≡ velocity_reference ∷ between ++ manual_action ∷ [])
unfolding run step request_handoff acknowledge_zero policy_binding is_zero action_eq float_eq
switch_needs_zeros_example =
    switch_needs_zeros to_act rl act rl_in_force rl_in_force-IsCoherent refl refl refl refl
      (omega arith)

handoff_completes_example :
    let s' = acknowledge_pending 110 (request_handoff act 100 rl_in_force).1 in
    let s'' = if is_some rl_in_force.active_binding then acknowledge_pending 120 s' else s' in
    (s''.phase ≡ active) × (s''.active_binding ≡ some act) × (s''.generation ≡ 2)
unfolding policy_binding
handoff_completes_example =
    handoff_completes act act 100 110 120 rl_in_force refl rl_in_force-IsCoherent (omega arith)
      (omega arith)

run-generation_example : 1 ≤ (run to_act rl_in_force).generation
run-generation_example = run-generation to_act rl_in_force

abbrev forward : MotionCandidate
forward = record {
  source = "rl_follow";
  generation = 1;
  mode = velocity_reference;
  action = zero_action;
  created_ns = 200;
  valid_until_ns = 300;
  action_chunk = none;
}

route_lem_example :
    ((route rl_in_force forward 250 true).is_accepted ≡ true
      ↔ ((b : PolicyBinding) × IsAdmissible rl_in_force forward 250 true b))
    × ((route rl_in_force forward 250 true).effective_action
        ≡ (if (route rl_in_force forward 250 true).is_accepted then zero_action else zero_action))
route_lem_example = route_lem rl_in_force forward 250 true
