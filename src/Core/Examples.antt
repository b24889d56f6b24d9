-- ===== src/Core/Examples.antt =====
-- The theorems about edge_runtime/resident_core.py at concrete inputs: a core whose sink has seen
-- the firmware's first row and whose mission lease ends at 600.
use excavator_orin_runtime.Prelude.{
  ◌+◌, ◌*◌, ◌≤◌, ◌<◌, ◌⊎◌, ◌≡◌, refl, arith, true, false, ◌&&◌, ◌||◌, none, some, List, [], ◌∷◌,
}
use excavator_orin_runtime.Prelude.Fault.{
  Error, ok, raised, value_error, runtime_error, lease_range, core_disarmed,
}
use excavator_orin_runtime.Motion.{velocity_reference, zero_action}
use excavator_orin_runtime.Commands.{synchronize}
use excavator_orin_runtime.Ingress.{new_adapter}
use excavator_orin_runtime.Sink.{Sink, Telemetry, complete, new_sink}
use excavator_orin_runtime.Motion.Authority.{pending_zero}
use excavator_orin_runtime.Sink.Submit as Submit
use excavator_orin_runtime.Sink.Requests.{initialize, is_operational}
use excavator_orin_runtime.Sink.Consistency.{IsConsistent}
use excavator_orin_runtime.Sink.Consistency.Requests.{
  new_sink-IsConsistent, initialize-IsConsistent,
}
use excavator_orin_runtime.Sink.History.Stopped.{IsStopped}
use excavator_orin_runtime.Core.{Core, new_tracker, fresh_core, new_core, positive}
use excavator_orin_runtime.Core.Control.{
  tick, renew_mission_lease, terminal_disarm, mission_lease_is_active, lease_over,
  control_status_snapshot,
}
use excavator_orin_runtime.Core.Calls.{
  Method, initialized, act_activated, worker_lost, rl_activated, renewed, step, run, By,
}
use excavator_orin_runtime.Core.Calls.Refines.{step-By, run-sink-IsConsistent}
use excavator_orin_runtime.Core.Lease.{IsSound}
use excavator_orin_runtime.Core.Budget.{AtMost}
use excavator_orin_runtime.Core.Budget.History.{segment_within_budget}
use excavator_orin_runtime.Core.Snapshot.{snapshot_foretells}
use excavator_orin_runtime.Core.Lease.Expiry.{lease_expiry_is_final, renewal_lem, without_lease}

abbrev row : Telemetry
row = record {
  receive_ns = 100;
  command_rx_seq = 4;
  command_valid = true;
  command_timed_out = false;
  control_mode = some velocity_reference;
  command_action = zero_action;
  control_enabled = true;
  estop = false;
  sensor_valid = true;
  stm32_alive = true;
  fault_flags = 0;
}

abbrev unstarted : Sink
unstarted = new_sink 1000 50 "excavator" (λ _. complete)

abbrev first_sink : Sink
first_sink = (initialize row unstarted).1

first_sink-IsConsistent : IsConsistent first_sink
first_sink-IsConsistent =
    initialize-IsConsistent (new_sink 1000 50 "excavator" (λ _. complete))
      (new_sink-IsConsistent 1000 50 "excavator" (λ _. complete)) row

abbrev leased_core : Core
leased_core = record {
  contract = none;
  chunk_steps = 10;
  min_steps = 100;
  sink = first_sink;
  rl = new_adapter;
  act = new_adapter;
  segment = new_tracker none none;
  lease_deadline_ns = some 600;
  disarm_result = none;
  zero_acknowledged = false;
  step_audit = [];
}

leased_core-IsSound : IsSound leased_core
unfolding initialize new_sink synchronize
leased_core-IsSound = record {
  consistent = first_sink-IsConsistent;
  leased = λ _. refl;
  ended = λ h. absurd (ground (arith, h));
}

abbrev afterwards : List Method
afterwards = rl_activated 710 ∷ renewed 500 720 ∷ []

step-By_example : By (rl_activated 200) leased_core.sink (step (rl_activated 200) leased_core).sink
step-By_example = step-By (rl_activated 200) leased_core

run-sink-IsConsistent_example : IsConsistent (run afterwards leased_core).sink
run-sink-IsConsistent_example = run-sink-IsConsistent afterwards leased_core first_sink-IsConsistent

lease_expiry_is_final_example :
    let c' = (tick 700 leased_core).1 in
    IsStopped c'.sink (run afterwards c').sink
    × (mission_lease_is_active 800 (run afterwards c') ≡ false)
lease_expiry_is_final_example =
    lease_expiry_is_final leased_core 700 afterwards 800 leased_core-IsSound refl

renewal_lem_example :
    let r = (renew_mission_lease 500 550 leased_core).0 in
    let c' = (renew_mission_lease 500 550 leased_core).1 in
    ((r ≡ ok tt)
      × (500 ≤ 500)
      × (500 ≤ 5000)
      × (is_operational first_sink ≡ true)
      × (lease_over (some 600) 550 ≡ false)
      × (c' ≡ record leased_core { lease_deadline_ns = some (550 + 500 * 1000000) }))
    ⊎ ((r ≡ raised (value_error lease_range)) × ((500 < 500) ⊎ (5000 < 500)) × (c' ≡ leased_core))
    ⊎ ((r ≡ raised (runtime_error core_disarmed))
        × (is_operational first_sink ≡ false)
        × (c' ≡ leased_core))
    ⊎ ((e : Error) × (r ≡ raised e)
        × (500 ≤ 500)
        × (500 ≤ 5000)
        × (is_operational first_sink ≡ true)
        × (lease_over (some 600) 550 ≡ true)
        × (c' ≡ (terminal_disarm 550 leased_core).1))
renewal_lem_example = renewal_lem leased_core 500 550

snapshot_foretells_example :
    let s = control_status_snapshot 300 leased_core in
    ((s.rl_is_active && s.act_is_active) ≡ false)
    × (((s.rl_is_active || s.act_is_active) ≡ false)
        ⊎ (pending_zero leased_core.sink.authority ≡ ok none))
    × (((s.mission_lease_active ≡ true)
          × (renew_mission_lease 500 300 leased_core
              ≡ (ok tt, record leased_core { lease_deadline_ns = some (300 + 500 * 1000000) }))
          × ((tick 300 leased_core).1
              ≡ record leased_core { sink = (Submit.tick 300 leased_core.sink).1 }))
        ⊎ ((s.mission_lease_active ≡ false)
            × ((s.operational ≡ false)
                ⊎ (leased_core.lease_deadline_ns ≡ none)
                ⊎ (((e : Error) × ((renew_mission_lease 500 300 leased_core).0 ≡ raised e))
                    × ((renew_mission_lease 500 300 leased_core).1
                        ≡ (terminal_disarm 300 leased_core).1)
                    × ((tick 300 leased_core).1
                        ≡ (terminal_disarm 300 (without_lease leased_core)).1)))))
snapshot_foretells_example = snapshot_foretells 300 500 leased_core (omega arith) (omega arith)

abbrev one_segment : List Method
one_segment = initialized row ∷ act_activated (some 3) 200 ∷ worker_lost 210 ∷ []

segment_within_budget_example :
    AtMost
      (run one_segment (fresh_core none 10 100 unstarted)).segment.completed_steps
      (run one_segment (fresh_core none 10 100 unstarted)).segment.max_steps
unfolding new_core positive
segment_within_budget_example =
    segment_within_budget none 10 100 unstarted (fresh_core none 10 100 unstarted) one_segment
      (new_sink-IsConsistent 1000 50 "excavator" (λ _. complete)) refl
