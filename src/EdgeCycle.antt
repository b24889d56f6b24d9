-- ===== src/EdgeCycle.antt =====
-- `EdgeExcavationCycle` of edge_runtime/cycle.py: one excavation cycle, advanced by the results of
-- its child behaviours. `copy.deepcopy` of a trajectory is the trajectory.
pub mod Moves
pub mod History
mod Examples
use excavator_orin_runtime.Prelude.{
  String, Bool, true, false, ◌||◌, not, Option, none, some, if◌then◌else◌, str_eq, strip, is_empty,
}
use excavator_orin_runtime.Prelude.Fault.{
  Outcome, ok, raised, value_error, runtime_error, edge_cycle_active, edge_cycle_inactive,
  cycle_id_text, trajectory_mapping, dump_not_awaited,
}
use excavator_orin_runtime.Prelude.Proc.{Proc, return, read, call, assign, ensure, ◌>>=◌, ◌>>◌}
use excavator_orin_runtime.Json.{Json, text, object, Members}

pub data Stage : Type 0 where
  idle follow_dig execute_dig waiting_for_dump_trajectory follow_dump execute_dump : Stage
  completed cancelled failed : Stage

-- `CycleDirective`.
pub record Directive : Type 0 where
  pub stage : Stage
  pub behavior : String
  pub trajectory : Option Members

pub record CycleStatus : Type 0 where
  pub cycle_id : String
  pub stage : Stage
  pub active_behavior : String
  pub terminal : Bool
  pub outcome : String
  pub reason_code : String

-- `__init__`.
abbrev pub new_status : CycleStatus
new_status = record {
  cycle_id = "";
  stage = idle;
  active_behavior = "";
  terminal = false;
  outcome = "";
  reason_code = "";
}

abbrev pub is_idle : Stage → Bool
is_idle idle = true
is_idle _ = false

abbrev pub is_waiting : Stage → Bool
is_waiting waiting_for_dump_trajectory = true
is_waiting _ = false

-- Text that is not blank.
abbrev pub cycle_id_of : Json → Outcome String
cycle_id_of (text s) = if is_empty (strip s) then raised (value_error cycle_id_text) else ok s
cycle_id_of _ = raised (value_error cycle_id_text)

abbrev pub trajectory_of : Json → Outcome Members
trajectory_of (object ms) = ok ms
trajectory_of _ = raised (value_error trajectory_mapping)

-- `start`.
unfoldable pub start : Json → Json → Proc CycleStatus Directive
start cycle_id dig_trajectory = do
  s ← read (λ (s : CycleStatus). s)
  ensure (is_idle s.stage || s.terminal) (runtime_error edge_cycle_active)
  name ← call (cycle_id_of cycle_id)
  trajectory ← call (trajectory_of dig_trajectory)
  assign
      (λ _. record new_status { cycle_id = name; stage = follow_dig; active_behavior = "Follow" })
  return (record { stage = follow_dig; behavior = "Follow"; trajectory = some trajectory })

-- The end of a cycle, in both ways that are no success.
abbrev pub ended_by : Stage → String → String → CycleStatus → CycleStatus
ended_by stage outcome reason s = record s {
  stage = stage;
  active_behavior = "";
  terminal = true;
  outcome = outcome;
  reason_code = reason;
}

-- `cancel`.
unfoldable pub cancel : String → Proc CycleStatus Unit
cancel reason = do
  s ← read (λ (s : CycleStatus). s)
  ensure (not (is_idle s.stage || s.terminal)) (runtime_error edge_cycle_inactive)
  assign (ended_by cancelled "CANCELLED" reason)

-- `_fail`, after which no directive is returned.
abbrev pub fail : String → Proc CycleStatus (Option Directive)
fail reason = do assign (ended_by failed "FAILED" reason); return none

abbrev pub text_or : String → String → String
text_or s d = if is_empty s then d else s

-- The next behaviour, which needs no trajectory.
abbrev pub execute : Stage → String → Proc CycleStatus (Option Directive)
execute stage behavior = do
  assign (λ s. record s { stage = stage; active_behavior = behavior })
  return (some (record { stage = stage; behavior = behavior; trajectory = none }))

abbrev pub wait : Proc CycleStatus (Option Directive)
wait = do
  assign (λ s. record s { stage = waiting_for_dump_trajectory; active_behavior = "" })
  return none

abbrev pub complete : Proc CycleStatus (Option Directive)
complete = do assign (ended_by completed "SUCCEEDED" "SEQUENCE_COMPLETED"); return none

abbrev pub unexpected : String → Proc CycleStatus (Option Directive)
unexpected reason = fail (text_or reason "UNEXPECTED_CHILD_RESULT")

-- The branches of `record_behavior_result` for a child that succeeded.
unfoldable pub after_success : Stage → String → Proc CycleStatus (Option Directive)
after_success follow_dig reason =
    if str_eq reason "SUCCEEDED" then execute execute_dig "ExecuteDig" else unexpected reason
after_success execute_dig reason =
    if str_eq reason "SEQUENCE_COMPLETED" then wait else unexpected reason
after_success follow_dump reason =
    if str_eq reason "SUCCEEDED" then execute execute_dump "ExecuteDump" else unexpected reason
after_success execute_dump reason =
    if str_eq reason "SEQUENCE_COMPLETED" then complete else unexpected reason
after_success _ reason = unexpected reason

-- A child that was cancelled.
unfoldable pub after_cancel : String → Proc CycleStatus (Option Directive)
unfolding cancel
after_cancel reason = do cancel (text_or reason "CANCELLED"); return none

-- `record_behavior_result`.
unfoldable pub record_behavior_result : String → String → Bool → Proc CycleStatus (Option Directive)
unfolding after_success after_cancel
record_behavior_result outcome reason quiescent = do
  s ← read (λ (s : CycleStatus). s)
  if not quiescent
      then fail "CHILD_NOT_QUIESCENT"
      else if str_eq outcome "CANCELLED"
      then after_cancel reason
      else if not (str_eq outcome "SUCCEEDED")
      then fail (text_or reason "CHILD_FAILED")
      else after_success s.stage reason

-- `provide_dump_trajectory`.
unfoldable pub provide_dump_trajectory : Json → Proc CycleStatus Directive
provide_dump_trajectory dump_trajectory = do
  s ← read (λ (s : CycleStatus). s)
  ensure (is_waiting s.stage) (runtime_error dump_not_awaited)
  trajectory ← call (trajectory_of dump_trajectory)
  assign (λ s. record s { stage = follow_dump; active_behavior = "Follow" })
  return (record { stage = follow_dump; behavior = "Follow"; trajectory = some trajectory })
