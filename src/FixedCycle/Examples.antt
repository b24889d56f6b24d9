-- ===== src/FixedCycle/Examples.antt =====
-- A plan of two dig points, a mission of one cycle on it, and its coordinator: the theorems about
-- edge_runtime/resident_fixed_cycle.py at concrete inputs.
use excavator_orin_runtime.Prelude.{
  ◌≤◌, ◌≡◌, refl, String, true, false, none, List, [], ◌∷◌, arith, str_eq,
}
use excavator_orin_runtime.Prelude.Float.{pos}
use excavator_orin_runtime.Prelude.Fault.{ok, raised, os_error, write_failed}
use excavator_orin_runtime.Json.{Json, null, int}
use excavator_orin_runtime.FixedCycle.Values.{identifier, is_safe_id, read_integer, equals_integer}
use excavator_orin_runtime.FixedCycle.Dict.{get}
use excavator_orin_runtime.FixedCycle.Plan.{dig}
use excavator_orin_runtime.FixedCycle.Plan.Mapping.Facts.{IsPlan, from_mapping-IsPlan}
use excavator_orin_runtime.FixedCycle.Samples.{
  plan_json, sample_plan, reads_plan, artifact_for, sample_plan-IsPlan,
}
use excavator_orin_runtime.FixedCycle.Machine.{
  Directive, new_cycle, follow_dig, completed, follow_to, is_active, start, get_elem?, index_of,
}
use excavator_orin_runtime.FixedCycle.Machine.Results.{ChildResult, record_child_result}
use excavator_orin_runtime.FixedCycle.Machine.Results.Invariant.{IsCycle}
use excavator_orin_runtime.FixedCycle.Machine.Results.History.{
  records, run, run-IsCycle, record_all, accepted, start_after, StartCall, results_needed,
  mission_ends, success_takes_all,
}
use excavator_orin_runtime.FixedCycle.Coordinator.{new_coordinator}
use excavator_orin_runtime.FixedCycle.Coordinator.Missions.{
  Operation, perform, perform_all, Closes, perform-Closes_missions,
}

from_mapping-IsPlan_example : IsPlan sample_plan
from_mapping-IsPlan_example = from_mapping-IsPlan false plan_json reads_plan

-- A mission of one cycle, and the results of its children.
abbrev one_cycle : StartCall
one_cycle = ("run-1", int (pos 1), none, none)

abbrev result : String → String → Json → ChildResult
result child reason steps = record {
  child = child;
  outcome = "SUCCEEDED";
  reason_code = reason;
  quiescence_confirmed = true;
  completed_steps = steps;
}

abbrev good_results : List ChildResult
good_results =
    result "follow" "SUCCEEDED" null
    ∷ result "act" "STEP_BUDGET_REACHED" (int (pos 400))
    ∷ result "follow" "SUCCEEDED" null
    ∷ result "fixed_action" "SEQUENCE_COMPLETED" null
    ∷ result "follow" "SUCCEEDED" null
    ∷ []

abbrev first_directive : Directive
first_directive = follow_to "p1" follow_dig (artifact_for "catalog-1:p1" dig)

run-IsCycle_example : IsCycle (run (records (result "act" "x" null) ∷ []) (new_cycle sample_plan))
run-IsCycle_example =
    run-IsCycle false plan_json sample_plan (records (result "act" "x" null) ∷ []) reads_plan

mission_starts : (start_after sample_plan [] one_cycle).0 ≡ ok first_directive
unfolding start run new_cycle read_integer get str_eq get_elem? identifier is_safe_id
mission_starts = refl

needs_five : results_needed (start_after sample_plan [] one_cycle).1 ≡ 5
unfolding start run new_cycle read_integer get str_eq get_elem? identifier is_safe_id
needs_five = refl

mission_ends_example :
    (results_needed (start_after sample_plan [] one_cycle).1 ≤ 37)
    × (is_active (record_all good_results (start_after sample_plan [] one_cycle).1) ≡ false)
    × (record_all good_results (record_all good_results (start_after sample_plan [] one_cycle).1)
        ≡ record_all good_results (start_after sample_plan [] one_cycle).1)
mission_ends_example =
    mission_ends sample_plan [] one_cycle first_directive good_results good_results
      sample_plan-IsPlan mission_starts (omega (arith, needs_five))

mission_succeeds :
    (record_all good_results (start_after sample_plan [] one_cycle).1).snapshot.stage ≡ completed
unfolding start run new_cycle record_all record_child_result read_integer get str_eq get_elem?
    identifier is_safe_id equals_integer index_of
mission_succeeds = refl

success_takes_all_example :
    accepted good_results (start_after sample_plan [] one_cycle).1
    ≡ results_needed (start_after sample_plan [] one_cycle).1
success_takes_all_example =
    success_takes_all sample_plan [] one_cycle first_directive good_results sample_plan-IsPlan
      mission_starts mission_succeeds

-- The driver refuses the second command.
abbrev run_start : Operation
run_start = Operation.starts "run-1" (int (pos 1)) none none

perform-Closes_missions_example : Closes (
    perform (Operation.records (result "follow" "SUCCEEDED" null)) (
      perform_all
        (run_start ∷ [])
        (new_coordinator sample_plan (ok tt ∷ raised (os_error write_failed) ∷ []))))
perform-Closes_missions_example =
    perform-Closes_missions sample_plan (ok tt ∷ raised (os_error write_failed) ∷ [])
      (run_start ∷ []) (Operation.records (result "follow" "SUCCEEDED" null)) sample_plan-IsPlan
      (tt, tt) tt
