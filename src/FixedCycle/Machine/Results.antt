-- ===== src/FixedCycle/Machine/Results.antt =====
-- edge_runtime/resident_fixed_cycle.py: `record_child_result` of `ResidentFixedCycle`, and what the
-- result of each child leads to.
pub mod Points
pub mod Invariant
pub mod Step
pub mod Keeps
pub mod Start
pub mod History
use excavator_orin_runtime.Prelude.{
  ℕ, ◌+◌, ◌%◌, String, Bool, true, ◌&&◌, ◌||◌, not, Option, none, some, if◌then◌else◌, ltb, ◌==◌,
  length, is_empty, str_eq,
}
use excavator_orin_runtime.Prelude.Fault.{
  runtime_error, index_error, zero_division_error, missing_index, cycle_inactive, zero_division,
}
use excavator_orin_runtime.Prelude.Proc.{Proc, return, read, required, assign, ensure, ◌>>=◌, ◌>>◌}
use excavator_orin_runtime.Json.{Json}
use excavator_orin_runtime.FixedCycle.Values.{equals_integer, is_between_zero_and}
use excavator_orin_runtime.FixedCycle.Plan.{MissionProfile, regime_factorized, act_full_cycle}
use excavator_orin_runtime.FixedCycle.Machine.{
  Stage, follow_dig, act_dig, act_whole_cycle, follow_dump, execute_dump, completed, Directive,
  Snapshot, Cycle, is_active, get_elem?, follow_directive, cancelled_by, failed_by, with_snapshot,
}

-- `self._fail(reason); return None`.
fail_with : String → Proc Cycle (Option Directive)
fail_with reason = do assign (with_snapshot (failed_by reason)); return none

cancel_with : String → Proc Cycle (Option Directive)
cancel_with reason = do assign (with_snapshot (cancelled_by reason)); return none

-- `_return_to_dig_after_completed_cycle`.
pub return_to_dig : Proc Cycle Directive
unfolding follow_directive
return_to_dig = do
  c ← read (λ (c : Cycle). c)
  let points = c.active_dig_sequence
  let done = c.snapshot.completed_cycles + 1
  let goes_on = ltb done c.snapshot.requested_cycles
  ensure (not goes_on || not (length points == 0)) (zero_division_error zero_division)
  let index = if goes_on then (c.dig_sequence_index + 1) % length points else c.dig_sequence_index
  assign (λ c. record c { dig_sequence_index = index })
  target ← required (get_elem? points index) (index_error missing_index)
  assign (
      with_snapshot (λ s. record s {
        stage = follow_dig;
        completed_cycles = done;
        current_dig_point_id = target;
      }))
  follow_directive target follow_dig

abbrev pub completed_with : Snapshot → Snapshot
completed_with s = record s {
  stage = completed;
  terminal = true;
  outcome = "SUCCEEDED";
  reason_code = "SEQUENCE_COMPLETED";
}

abbrev pub act_stage : MissionProfile → Stage
act_stage act_full_cycle = act_whole_cycle
act_stage regime_factorized = act_dig

-- The Follow to the dig point succeeded: the mission is over, or ACT is next.
pub after_follow_dig : Proc Cycle (Option Directive)
after_follow_dig = do
  c ← read (λ (c : Cycle). c)
  let act = do
    let stage = act_stage c.plan.mission_profile
    assign (with_snapshot (λ s. record s { stage = stage }))
    return (
        some (record {
          stage = stage;
          child = "act";
          target_id = none;
          trajectory = none;
          max_steps = some c.plan.act_max_steps;
          behavior = none;
        }))
  if c.snapshot.completed_cycles == c.snapshot.requested_cycles
      then (do assign (with_snapshot completed_with); return none)
      else act

-- ACT ran its budget, or stopped at a chunk within the deadzone.
abbrev pub act_is_done : ℕ → String → Json → Bool
act_is_done max_steps reason completed_steps =
    str_eq reason "STEP_BUDGET_REACHED" && equals_integer completed_steps max_steps
    || str_eq reason "DEADZONE_CHUNK_REACHED" && is_between_zero_and max_steps completed_steps

some_directive : Proc Cycle Directive → Proc Cycle (Option Directive)
some_directive m = do d ← m; return (some d)

-- The next child after ACT.
pub act_leads_to : MissionProfile → Proc Cycle (Option Directive)
unfolding some_directive return_to_dig follow_directive
act_leads_to act_full_cycle = some_directive return_to_dig
act_leads_to regime_factorized = do
  assign (with_snapshot (λ s. record s { stage = follow_dump }))
  some_directive (follow_directive "dump" follow_dump)

pub after_act : String → Json → Proc Cycle (Option Directive)
unfolding fail_with act_leads_to
after_act reason completed_steps = do
  p ← read (λ (c : Cycle). c.plan)
  if not (act_is_done p.act_max_steps reason completed_steps)
      then fail_with "ACT_STEP_BUDGET_MISMATCH"
      else act_leads_to p.mission_profile

pub after_follow_dump : Proc Cycle (Option Directive)
after_follow_dump = do
  assign (with_snapshot (λ s. record s { stage = execute_dump }))
  return (
      some (record {
        stage = execute_dump;
        child = "fixed_action";
        target_id = none;
        trajectory = none;
        max_steps = none;
        behavior = some "ExecuteDump";
      }))

-- What the succeeded child of a stage leads to.
pub after_success : Stage → String → String → Json → Proc Cycle (Option Directive)
unfolding fail_with some_directive return_to_dig after_follow_dig after_act after_follow_dump
after_success follow_dig child reason steps =
    if str_eq child "follow" && str_eq reason "SUCCEEDED"
    then after_follow_dig
    else fail_with "UNEXPECTED_CHILD_RESULT"
after_success act_dig child reason steps =
    if str_eq child "act" then after_act reason steps else fail_with "UNEXPECTED_CHILD_RESULT"
after_success act_whole_cycle child reason steps =
    if str_eq child "act" then after_act reason steps else fail_with "UNEXPECTED_CHILD_RESULT"
after_success follow_dump child reason steps =
    if str_eq child "follow" && str_eq reason "SUCCEEDED"
    then after_follow_dump
    else fail_with "UNEXPECTED_CHILD_RESULT"
after_success execute_dump child reason steps =
    if str_eq child "fixed_action" && str_eq reason "SEQUENCE_COMPLETED"
    then some_directive return_to_dig
    else fail_with "UNEXPECTED_CHILD_RESULT"
after_success _ child reason steps = fail_with "UNEXPECTED_CHILD_RESULT"

-- `text or default`.
abbrev pub text_or : String → String → String
text_or s d = if is_empty s then d else s

-- The result that a child reports.
pub record ChildResult : Type 0 where
  pub child : String
  pub outcome : String
  pub reason_code : String
  pub quiescence_confirmed : Bool
  pub completed_steps : Json

-- `record_child_result`.
unfoldable pub record_child_result : ChildResult → Proc Cycle (Option Directive)
unfolding fail_with cancel_with after_success
record_child_result r = do
  c ← read (λ (c : Cycle). c)
  ensure (is_active c) (runtime_error cycle_inactive)
  if not r.quiescence_confirmed
      then fail_with "CHILD_NOT_QUIESCENT"
      else if str_eq r.outcome "CANCELLED"
      then cancel_with (text_or r.reason_code "CANCELLED")
      else if not (str_eq r.outcome "SUCCEEDED")
      then fail_with (text_or r.reason_code "CHILD_FAILED")
      else after_success c.snapshot.stage r.child r.reason_code r.completed_steps
