-- ===== src/FixedCycle/Machine.antt =====
-- edge_runtime/resident_fixed_cycle.py: `ResidentFixedCycle`, the state machine of one mission.
pub mod Results
use excavator_orin_runtime.Prelude.{
  ℕ, ◌+◌, ◌-◌, ◌%◌, String, Bool, true, false, ◌&&◌, ◌||◌, not, Option, none, some, List, [], ◌∷◌,
  if◌then◌else◌, ltb, ◌==◌, length, is_empty, is_some, str_eq,
}
use excavator_orin_runtime.Prelude.Fault.{
  value_error, runtime_error, key_error, index_error, zero_division_error, missing_key,
  missing_index, cycle_active, cycle_inactive, group_not_planned, point_not_in_group, zero_division,
}
use excavator_orin_runtime.Prelude.Proc.{
  Proc, return, raise, read, call, required, assign, ensure, ◌>>=◌, ◌>>◌,
}
use excavator_orin_runtime.Json.{Json, listed}
use excavator_orin_runtime.FixedCycle.Values.{
  identifier, read_integer, equals_integer, is_between_zero_and,
}
use excavator_orin_runtime.FixedCycle.Dict.{get}
use excavator_orin_runtime.FixedCycle.Plan.{
  MissionProfile, regime_factorized, act_full_cycle, Plan, TrajectoryArtifact,
}

pub data Stage : Type 0 where
  idle follow_dig act_dig act_whole_cycle follow_dump execute_dump : Stage
  completed failed cancelled : Stage

-- `FixedCycleDirective`.
pub record Directive : Type 0 where
  pub stage : Stage
  pub child : String
  pub target_id : Option String
  pub trajectory : Option TrajectoryArtifact
  pub max_steps : Option ℕ
  pub behavior : Option String

pub record Snapshot : Type 0 where
  pub run_id : String
  pub mission_profile : MissionProfile
  pub stage : Stage
  pub requested_cycles : ℕ
  pub completed_cycles : ℕ
  pub current_dig_point_id : String
  pub dig_group_id : String
  pub terminal : Bool
  pub outcome : String
  pub reason_code : String

abbrev pub idle_snapshot : Snapshot
idle_snapshot = record {
  run_id = "";
  mission_profile = regime_factorized;
  stage = idle;
  requested_cycles = 0;
  completed_cycles = 0;
  current_dig_point_id = "";
  dig_group_id = "";
  terminal = false;
  outcome = "";
  reason_code = "";
}

pub record Cycle : Type 0 where
  pub plan : Plan
  pub snapshot : Snapshot
  pub dig_sequence_index : ℕ
  pub active_dig_sequence : List String

-- `__init__`.
unfoldable pub new_cycle : Plan → Cycle
new_cycle p = record {
  plan = p;
  snapshot = idle_snapshot;
  dig_sequence_index = 0;
  active_dig_sequence = p.dig_sequence;
}

abbrev pub max_requested_cycles : ℕ
max_requested_cycles = 9

abbrev pub is_idle : Stage → Bool
is_idle idle = true
is_idle _ = false

-- A mission is under way.
abbrev pub is_active : Cycle → Bool
is_active c = not (is_idle c.snapshot.stage) && not c.snapshot.terminal

-- `given or default`, where an absent text and the empty one are false.
abbrev pub given_or : Option String → String → String
given_or none d = d
given_or (some s) d = if is_empty s then d else s

-- `xs[i]` for a natural i.
unfoldable pub get_elem? : List String → ℕ → Option String
get_elem? [] i = none
get_elem? (x ∷ xs) i = let rest = get_elem? xs (i - 1) in if i == 0 then some x else rest

-- `xs.index(k)` of a member.
unfoldable pub index_of : String → List String → ℕ
index_of k [] = 0
index_of k (x ∷ xs) = let rest = index_of k xs in if str_eq x k then 0 else rest + 1

pub put_snapshot : Snapshot → Proc Cycle Unit
put_snapshot s = assign (λ c. record c { snapshot = s })

-- `_follow_directive`.
abbrev pub follow_to : String → Stage → TrajectoryArtifact → Directive
follow_to target stage artifact = record {
  stage = stage;
  child = "follow";
  target_id = some target;
  trajectory = some artifact;
  max_steps = none;
  behavior = none;
}

pub follow_directive : String → Stage → Proc Cycle Directive
follow_directive target stage = do
  p ← read (λ (c : Cycle). c.plan)
  artifact ← required (get target p.trajectories) (key_error missing_key)
  return (follow_to target stage artifact)

abbrev pub started : Plan → String → ℕ → String → String → Snapshot
started p run_id cycles first group_id = record idle_snapshot {
  run_id = run_id;
  mission_profile = p.mission_profile;
  stage = follow_dig;
  requested_cycles = cycles;
  current_dig_point_id = first;
  dig_group_id = group_id;
}

-- An absent text and the empty one are false.
abbrev pub truthy : Option String → Option String
truthy none = none
truthy (some s) = if is_empty s then none else some s

-- `first_dig_point_id or self._active_dig_sequence[0]`.
given_point : Option String → Proc Cycle String
given_point (some s) = return s
given_point none = do
  points ← read (λ (c : Cycle). c.active_dig_sequence)
  required (get_elem? points 0) (index_error missing_index)

first_point : Option String → Proc Cycle String
unfolding given_point
first_point given = given_point (truthy given)

-- `start`. A raise may leave the sequence and the index of the points written.
unfoldable pub start :
    (run_id : String) (requested_cycles : Json) (first_dig_point_id dig_group_id : Option String)
    → Proc Cycle Directive
unfolding first_point follow_directive put_snapshot
start run_id requested_cycles first_dig_point_id dig_group_id = do
  active ← read is_active
  ensure (not active) (runtime_error cycle_active)
  cycles ← call (read_integer 1 max_requested_cycles requested_cycles)
  p ← read (λ (c : Cycle). c.plan)
  let group_id = given_or dig_group_id p.default_dig_group
  points ← required (get group_id p.dig_groups) (value_error group_not_planned)
  assign (λ c. record c { active_dig_sequence = points })
  first ← first_point first_dig_point_id
  ensure (listed first points) (value_error point_not_in_group)
  assign (λ c. record c { dig_sequence_index = index_of first points })
  id ← call (identifier run_id)
  put_snapshot (started p id cycles first group_id)
  follow_directive first follow_dig

-- `_cancel` and `_fail`.
abbrev pub cancelled_by : String → Snapshot → Snapshot
cancelled_by reason s = record s {
  stage = cancelled;
  terminal = true;
  outcome = "CANCELLED";
  reason_code = reason;
}

abbrev pub failed_by : String → Snapshot → Snapshot
failed_by reason s = record s {
  stage = failed;
  terminal = true;
  outcome = "FAILED";
  reason_code = reason;
}

abbrev pub with_snapshot : (Snapshot → Snapshot) → Cycle → Cycle
with_snapshot f c = record c { snapshot = f c.snapshot }

-- `cancel`.
unfoldable pub cancel : String → Proc Cycle Unit
cancel reason = do
  active ← read is_active
  ensure active (runtime_error cycle_inactive)
  assign (with_snapshot (cancelled_by reason))

-- `fail`.
unfoldable pub fail : String → Proc Cycle Unit
fail reason = do
  active ← read is_active
  ensure active (runtime_error cycle_inactive)
  id ← call (identifier reason)
  assign (with_snapshot (failed_by id))
