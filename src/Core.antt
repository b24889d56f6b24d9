-- ===== src/Core.antt =====
-- The state of `ResidentMotionCore` in edge_runtime/resident_core.py: the sink behind the RL and the
-- ACT adapter, the progress of the ACT segment, and the lease of the mission.
pub mod Segment
pub mod Control
pub mod Calls
pub mod Lease
pub mod Budget
pub mod Snapshot
mod Examples
use excavator_orin_runtime.Prelude.{
  ℕ, suc, ◌+◌, ◌*◌, ◌-◌, String, Bool, true, false, ◌&&◌, not, Option, none, some, List, [], ◌∷◌,
  if◌then◌else◌, leb, ltb,
}
use excavator_orin_runtime.Prelude.Float.{
  Float, float_zero, float_of, pos, float_le, float_abs, is_finite,
}
use excavator_orin_runtime.Prelude.Fault.{
  Outcome, ok, raised, value_error, deadzone_component, positive_integer,
  step_budget as step_budget_fault,
}
use excavator_orin_runtime.Prelude.Proc.{Proc}
use excavator_orin_runtime.Motion.{
  ControlMode, manual_action, velocity_reference, Action, PolicyBinding,
}
use excavator_orin_runtime.Ingress.{Adapter, Seat, new_adapter}
use excavator_orin_runtime.Sink.{Sink, WriteResult}

abbrev pub rl_binding : PolicyBinding
rl_binding = record { source = "rl_follow"; mode = velocity_reference }

abbrev pub act_binding : PolicyBinding
act_binding = record { source = "act_dig"; mode = manual_action }

abbrev pub max_act_segment_steps : ℕ
max_act_segment_steps = 2000

abbrev pub min_mission_lease_ms : ℕ
min_mission_lease_ms = 500

abbrev pub max_mission_lease_ms : ℕ
max_mission_lease_ms = 5000

-- `AxisManualActionDeadzone`.
pub record AxisDeadzone : Type 0 where
  pub positive_abs : Float
  pub negative_abs : Float

-- `_manual_action_deadzone_component`: finite and in [0, 1).
unfoldable pub deadzone_value : Float → Outcome Float
deadzone_value v =
    if is_finite v && (float_le float_zero v && not (float_le (float_of (pos 1)) v))
    then ok v
    else raised (value_error deadzone_component)

-- `AxisManualActionDeadzone(positive_abs, negative_abs)`.
unfoldable pub axis_deadzone : Float → Float → Outcome AxisDeadzone
unfolding deadzone_value
axis_deadzone p n = elim (deadzone_value p) [
  | raised e ↦ raised e
  | ok p' ↦ elim (deadzone_value n) [
    | raised e ↦ raised e
    | ok n' ↦ ok (record { positive_abs = p'; negative_abs = n' })
  ]
]

unfoldable pub axis_contains : AxisDeadzone → Float → Bool
axis_contains a v =
    float_le (float_abs v) (if float_le float_zero v then a.positive_abs else a.negative_abs)

-- `ManualActionDeadzoneContract`, an axis for each value of an action.
pub record DeadzoneContract : Type 0 where
  pub boom : AxisDeadzone
  pub stick : AxisDeadzone
  pub bucket : AxisDeadzone
  pub swing : AxisDeadzone

-- `contains_action`.
unfoldable pub contains_action : DeadzoneContract → Action → Bool
unfolding axis_contains
contains_action c a =
    axis_contains c.boom a.boom
    && (axis_contains c.stick a.stick
        && (axis_contains c.bucket a.bucket && axis_contains c.swing a.swing))

-- `_action_within_manual_deadzone_contract`.
unfoldable pub within_deadzone : Action → Option DeadzoneContract → Bool
within_deadzone a none = false
within_deadzone a (some c) = contains_action c a

pub data CompletionReason : Type 0 where
  step_budget deadzone_chunk : CompletionReason

-- `_ActSegmentTracker`.
pub record Tracker : Type 0 where
  pub generation : Option ℕ
  pub max_steps : Option ℕ
  pub completed_steps : ℕ
  pub complete : Bool
  pub final_seq : Option ℕ
  pub final_action : Option Action
  pub handoff_due : Bool
  pub last_effective_step : Option ℕ
  pub trailing_deadzone_steps : ℕ
  pub completion_reason : Option CompletionReason

abbrev pub new_tracker : Option ℕ → Option ℕ → Tracker
new_tracker generation max_steps = record {
  generation = generation;
  max_steps = max_steps;
  completed_steps = 0;
  complete = false;
  final_seq = none;
  final_action = none;
  handoff_due = false;
  last_effective_step = none;
  trailing_deadzone_steps = 0;
  completion_reason = none;
}

-- What is handed to `emit_action_audit` after a step; the summary is none unless a handoff is due.
pub record StepAudit : Type 0 where
  pub time_ns : ℕ
  pub command_seq : Option ℕ
  pub action : Action
  pub all_axes_in_deadzone : Bool
  pub segment : Tracker
  pub skipped_budget_steps : Option ℕ

pub record Core : Type 0 where
  pub contract : Option DeadzoneContract
  pub chunk_steps : ℕ
  pub min_steps : ℕ
  pub sink : Sink
  pub rl : Adapter
  pub act : Adapter
  pub segment : Tracker
  pub lease_deadline_ns : Option ℕ
  pub disarm_result : Option WriteResult
  pub zero_acknowledged : Bool
  pub step_audit : List StepAudit

-- `_positive_integer`.
unfoldable pub positive : ℕ → Outcome ℕ
positive n = if ltb n 1 then raised (value_error positive_integer) else ok n

abbrev pub fresh_core : Option DeadzoneContract → ℕ → ℕ → Sink → Core
fresh_core contract chunk_steps min_steps sink = record {
  contract = contract;
  chunk_steps = chunk_steps;
  min_steps = min_steps;
  sink = sink;
  rl = new_adapter;
  act = new_adapter;
  segment = new_tracker none none;
  lease_deadline_ns = none;
  disarm_result = none;
  zero_acknowledged = false;
  step_audit = [];
}

-- `ResidentMotionCore(...)` over a new sink.
unfoldable pub new_core : Option DeadzoneContract → ℕ → ℕ → Sink → Outcome Core
unfolding positive
new_core contract chunk_steps min_steps sink = elim (positive chunk_steps) [
  | raised e ↦ raised e
  | ok chunk ↦ elim (positive min_steps) [
    | raised e ↦ raised e
    | ok steps ↦ ok (fresh_core contract chunk steps sink)
  ]
]

-- `_optional_act_step_budget`.
unfoldable pub step_budget_of : Option ℕ → Outcome (Option ℕ)
step_budget_of none = ok none
step_budget_of (some n) =
    if leb 1 n && leb n max_act_segment_steps
    then ok (some n)
    else raised (value_error step_budget_fault)

-- The methods of the parts.
abbrev pub in_sink {ℓ} : {A : Type ℓ} → (Sink → Outcome A × Sink) → Core → Outcome A × Core
in_sink m c = let (r, k) = m c.sink in (r, record c { sink = k })

abbrev pub in_rl {ℓ} : {A : Type ℓ} → (Seat → Outcome A × Seat) → Core → Outcome A × Core
in_rl m c =
    let (r, s) = m (record { adapter = c.rl; sink = c.sink }) in
    (r, record c { rl = s.adapter; sink = s.sink })

abbrev pub in_act {ℓ} : {A : Type ℓ} → (Seat → Outcome A × Seat) → Core → Outcome A × Core
in_act m c =
    let (r, s) = m (record { adapter = c.act; sink = c.sink }) in
    (r, record c { act = s.adapter; sink = s.sink })

abbrev pub set_segment : (Tracker → Tracker) → Core → Core
set_segment f c = record c { segment = f c.segment }

abbrev pub not_due : Tracker → Tracker
not_due t = record t { handoff_due = false }
