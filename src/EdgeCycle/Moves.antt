-- ===== src/EdgeCycle/Moves.antt =====
-- The legal moves of the cycle of edge_runtime/cycle.py, and the calls.
pub mod Keeps
use excavator_orin_runtime.Prelude.{
  Option, none, some, str_eq, String, Bool, true, false, ◌||◌, not, ◌≡◌, ◌⊎◌, inl, inr, refl, sym,
  ap, ◌∙◌, arith, is_empty, strip, str_eq, Bool-cases, str_eq_iff,
}
use excavator_orin_runtime.Prelude.Fault.{Error, Outcome, ok, raised, Outcome-cases}
use excavator_orin_runtime.Json.{Json, text, object, Members}
use excavator_orin_runtime.EdgeCycle.{
  Stage, idle, follow_dig, execute_dig, waiting_for_dump_trajectory, follow_dump, execute_dump,
  completed, cancelled, failed, CycleStatus, is_idle, is_waiting, cycle_id_of, trajectory_of, start,
  cancel, fail, ended_by, execute, wait, complete, unexpected, after_success, after_cancel,
  record_behavior_result, provide_dump_trajectory,
}

pub data Event : Type 0 where
  started : Json → Json → Event
  resulted : String → String → Bool → Event
  provided : Json → Event
  cancelled_for : String → Event

unfoldable pub step : Event → CycleStatus → CycleStatus
step (started cycle_id dig) s = (start cycle_id dig s).1
step (resulted outcome reason quiescent) s = (record_behavior_result outcome reason quiescent s).1
step (provided dump) s = (provide_dump_trajectory dump s).1
step (cancelled_for reason) s = (cancel reason s).1

abbrev pub is_ended : Stage → Bool
is_ended completed = true
is_ended cancelled = true
is_ended failed = true
is_ended _ = false

-- A cycle is under way.
abbrev pub is_open : Stage → Bool
is_open st = not (is_idle st || is_ended st)

abbrev pub behavior_of : Stage → String
behavior_of follow_dig = "Follow"
behavior_of execute_dig = "ExecuteDig"
behavior_of follow_dump = "Follow"
behavior_of execute_dump = "ExecuteDump"
behavior_of _ = ""

abbrev pub outcome_of : Stage → String
outcome_of completed = "SUCCEEDED"
outcome_of cancelled = "CANCELLED"
outcome_of failed = "FAILED"
outcome_of _ = ""

-- The fields of a status that follow from its stage.
pub record IsCoherent (s : CycleStatus) : Type 0 where
  pub behavior : s.active_behavior ≡ behavior_of s.stage
  pub terminal : s.terminal ≡ is_ended s.stage
  pub outcome : s.outcome ≡ outcome_of s.stage

abbrev pub is_mapping : Json → Bool
is_mapping (object ms) = true
is_mapping _ = false

abbrev pub is_name : Json → Bool
is_name (text s) = not (is_empty (strip s))
is_name _ = false

-- The calls that leave the cycle as it is.
abbrev pub IsRefused : Stage → Event → Type 0
IsRefused st (started cycle_id dig) =
    (is_open st ≡ true) ⊎ (is_name cycle_id ≡ false) ⊎ (is_mapping dig ≡ false)
IsRefused st (resulted outcome reason quiescent) =
    (is_open st ≡ false) × (outcome ≡ "CANCELLED") × (quiescent ≡ true)
IsRefused st (provided dump) = (is_waiting st ≡ false) ⊎ (is_mapping dump ≡ false)
IsRefused st (cancelled_for reason) = is_open st ≡ false

-- The reason that completes the leg of a stage.
abbrev pub expected_reason : Stage → Option String
expected_reason follow_dig = some "SUCCEEDED"
expected_reason execute_dig = some "SEQUENCE_COMPLETED"
expected_reason follow_dump = some "SUCCEEDED"
expected_reason execute_dump = some "SEQUENCE_COMPLETED"
expected_reason _ = none

abbrev pub is_expected : Option String → String → Bool
is_expected none reason = false
is_expected (some expected) reason = str_eq reason expected

-- A result that completes no leg and reports no cancellation at rest.
abbrev pub Misfits : Stage → String → String → Bool → Type 0
Misfits st outcome reason quiescent =
    (quiescent ≡ false)
    ⊎ (str_eq outcome "CANCELLED" ≡ false)
      × ((str_eq outcome "SUCCEEDED" ≡ false) ⊎ (is_expected (expected_reason st) reason ≡ false))

-- The moves of a cycle: the legs in their order, a failure by a result that does not fit, from any
-- stage, and a cancellation of a cycle that is under way.
pub data Moves : Stage → Event → Stage → Type 0 where
  starts :
      (st : Stage) (cycle_id : String) (ms : Members)
      → is_open st ≡ false
      → is_empty (strip cycle_id) ≡ false
      → Moves st (started (text cycle_id) (object ms)) follow_dig
  follows_dig :
      (o r : String)
      → o ≡ "SUCCEEDED"
      → r ≡ "SUCCEEDED"
      → Moves follow_dig (resulted o r true) execute_dig
  digs :
      (o r : String)
      → o ≡ "SUCCEEDED"
      → r ≡ "SEQUENCE_COMPLETED"
      → Moves execute_dig (resulted o r true) waiting_for_dump_trajectory
  gets_trajectory :
      (ms : Members) → Moves waiting_for_dump_trajectory (provided (object ms)) follow_dump
  follows_dump :
      (o r : String)
      → o ≡ "SUCCEEDED"
      → r ≡ "SUCCEEDED"
      → Moves follow_dump (resulted o r true) execute_dump
  dumps :
      (o r : String)
      → o ≡ "SUCCEEDED"
      → r ≡ "SEQUENCE_COMPLETED"
      → Moves execute_dump (resulted o r true) completed
  fails :
      (st : Stage) (o r : String) (quiescent : Bool)
      → Misfits st o r quiescent
      → Moves st (resulted o r quiescent) failed
  reports_cancel :
      (st : Stage) (o r : String)
      → is_open st ≡ true
      → o ≡ "CANCELLED"
      → Moves st (resulted o r true) cancelled
  cancels : (st : Stage) (r : String) → is_open st ≡ true → Moves st (cancelled_for r) cancelled
  refuses : (st : Stage) (e : Event) → IsRefused st e → Moves st e st

-- A legal move that leaves the fields in accord with the stage.
abbrev pub Keeps : Stage → Event → CycleStatus → Type 0
Keeps st e s = Moves st e s.stage × IsCoherent s
