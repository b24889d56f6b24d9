-- ===== src/FixedCycle/Machine/Results/Invariant.antt =====
-- The invariant of `ResidentFixedCycle` of edge_runtime/resident_fixed_cycle.py.
use excavator_orin_runtime.Prelude.{ℕ, ◌≤◌, ◌<◌, ◌≡◌, Bool, true, false, some}
use excavator_orin_runtime.FixedCycle.Dict.{get}
use excavator_orin_runtime.FixedCycle.Plan.{MissionProfile, regime_factorized, act_full_cycle}
use excavator_orin_runtime.FixedCycle.Plan.Mapping.Facts.{IsPlan}
use excavator_orin_runtime.FixedCycle.Machine.{
  Stage, follow_dig, act_dig, act_whole_cycle, follow_dump, execute_dump, completed, failed,
  cancelled, Cycle, is_active, get_elem?, max_requested_cycles,
}

-- The stages that a mission of a profile passes through.
abbrev pub StageOf : MissionProfile → Stage → Type 0
StageOf m follow_dig = Unit
StageOf m act_dig = m ≡ regime_factorized
StageOf m follow_dump = m ≡ regime_factorized
StageOf m execute_dump = m ≡ regime_factorized
StageOf m act_whole_cycle = m ≡ act_full_cycle
StageOf m _ = ⊥

-- Past the Follow to the dig point a cycle is open.
abbrev pub Counts : Stage → ℕ → ℕ → Type 0
Counts follow_dig done requested = done ≤ requested
Counts _ done requested = done < requested

-- A mission under way works on a group of the plan, at one of its points.
pub record IsRunning (c : Cycle) : Type 0 where
  pub group : get c.snapshot.dig_group_id c.plan.dig_groups ≡ some c.active_dig_sequence
  pub point :
      get_elem? c.active_dig_sequence c.dig_sequence_index ≡ some c.snapshot.current_dig_point_id
  pub profile : c.snapshot.mission_profile ≡ c.plan.mission_profile
  pub stage_of : StageOf c.plan.mission_profile c.snapshot.stage
  pub counts : Counts c.snapshot.stage c.snapshot.completed_cycles c.snapshot.requested_cycles
  pub some_cycle : 1 ≤ c.snapshot.requested_cycles

abbrev pub is_over : Stage → Bool
is_over completed = true
is_over failed = true
is_over cancelled = true
is_over _ = false

pub record IsCycle (c : Cycle) : Type 0 where
  pub plan : IsPlan c.plan
  pub running : is_active c ≡ true → IsRunning c
  pub over : c.snapshot.terminal ≡ is_over c.snapshot.stage
  pub within : c.snapshot.completed_cycles ≤ c.snapshot.requested_cycles
  pub at_most_nine : c.snapshot.requested_cycles ≤ max_requested_cycles
  pub succeeded :
      c.snapshot.stage ≡ completed → c.snapshot.completed_cycles ≡ c.snapshot.requested_cycles
