-- ===== src/FixedCycle/Templates.antt =====
-- edge_runtime/resident_fixed_cycle.py: `FixedTrajectoryTemplate.from_mapping` and the templates of a
-- target catalog.
use Prim.Native.String.{◌++◌ as ◌<>◌}
pub mod Fits
pub mod Catalogs
pub mod Registry
mod Examples
use excavator_orin_runtime.Prelude.{
  String, Bool, true, false, ◌&&◌, ◌||◌, not, Option, none, some, List, [], ◌∷◌, map, if◌then◌else◌,
  str_eq,
}
use excavator_orin_runtime.Prelude.Float.{Float, float_le}
use excavator_orin_runtime.Prelude.Fault.{
  Outcome, ok, raised, value_error, key_error, missing_key, template_fields, template_scope,
  artifact_mismatch, validation_status, catalog_scope, catalog_points, point_shape,
}
use excavator_orin_runtime.Json.{Json, object, Members, field, has_fields, is_text, listed}
use excavator_orin_runtime.Protocol.{◌>>=◌, ◌>>◌, check}
use excavator_orin_runtime.FixedCycle.Values.{
  Point, identifier, read_identifier, read_text, read_sha256, positive_float, nonnegative_float,
  fixed_waypoints, read_point,
}
use excavator_orin_runtime.FixedCycle.Dict.{get, put, entries, subset, build}
use excavator_orin_runtime.FixedCycle.Plan.{
  Phase, dig, dump, phase_name, phase_of, ValidationStatus, field_validated, candidate,
  TrajectoryArtifact, CatalogArtifact, Plan, at_key, read_status, no_members,
}
use excavator_orin_runtime.FixedCycle.Plan.Mapping.{trajectory_target_ids}

pub record Template : Type 0 where
  pub trajectory_id : String
  pub validation_status : ValidationStatus
  pub phase : Phase
  pub frame_id : String
  pub mission_id : String
  pub mission_sha256 : String
  pub task_mode : String
  pub control_stage : String
  pub workspace_constraint : String
  pub waypoints : List Point
  pub waypoint_tolerance_m : Float
  pub intermediate_waypoint_tolerance_m : Float
  pub waypoint_dwell_s : Float
  pub tracking_timeout_s : Float

abbrev pub template_field_names : List String
template_field_names =
    "schema_version" ∷ "trajectory_id" ∷ "validation_status" ∷ "phase" ∷ "frame_id" ∷ "mission_id"
    ∷ "mission_sha256" ∷ "task_mode" ∷ "control_stage" ∷ "workspace_constraint" ∷ "waypoints"
    ∷ "waypoint_tolerance_m" ∷ "waypoint_dwell_s" ∷ "tracking_timeout_s" ∷ []

abbrev pub catalog_field_names : List String
catalog_field_names =
    "schema_version" ∷ "catalog_id" ∷ "validation_status" ∷ "frame_id" ∷ "mission_id"
    ∷ "mission_sha256" ∷ "control_stage" ∷ "workspace_constraint" ∷ "dig_points" ∷ "dump_target"
    ∷ "waypoint_tolerance_m" ∷ "intermediate_waypoint_tolerance_m" ∷ "waypoint_dwell_s"
    ∷ "tracking_timeout_s" ∷ []

abbrev pub is_candidate : ValidationStatus → Bool
is_candidate candidate = true
is_candidate field_validated = false

abbrev pub status_eq : ValidationStatus → ValidationStatus → Bool
status_eq candidate candidate = true
status_eq field_validated field_validated = true
status_eq _ _ = false

-- `"CarryMaterial" if phase == "dump" else "MoveToDig"`.
abbrev pub task_mode_of : Phase → String
task_mode_of dump = "CarryMaterial"
task_mode_of dig = "MoveToDig"

-- The status, which has to be the plan's.
pub status_of_plan : ValidationStatus → Members → Outcome ValidationStatus
status_of_plan expected ms = do
  status ← at_key "validation_status" ms >>= read_status (is_candidate expected)
  check (status_eq status expected) (value_error validation_status)
  ok status

-- A text field that has to be one that is given.
pub text_field : String → String → Members → Outcome String
text_field key expected ms = do
  value ← at_key key ms >>= read_text
  check (str_eq value expected) (value_error artifact_mismatch)
  ok value

abbrev or_else : Option Json → Outcome Float → Outcome Float
or_else none m = m
or_else (some v) m = positive_float v

-- `value.get("intermediate_waypoint_tolerance_m", waypoint_tolerance_m)`, read as a positive float;
-- the default has been read as one already.
intermediate_tolerance : Float → Members → Outcome Float
intermediate_tolerance tolerance ms =
    or_else (field "intermediate_waypoint_tolerance_m" ms) (ok tolerance)

pub record Scope : Type 0 where
  pub control_stage : String
  pub workspace_constraint : String
  pub mission_sha256 : String

-- The commissioning scope and the mission's digest.
pub template_scope_of : Members → Outcome Scope
template_scope_of ms = do
  stage ← at_key "control_stage" ms >>= read_text
  constraint ← at_key "workspace_constraint" ms >>= read_text
  check
      (str_eq stage "commissioning"
        && (str_eq constraint "disabled_by_operator" || str_eq constraint "field_validated"))
      (value_error template_scope)
  digest ← at_key "mission_sha256" ms >>= read_sha256
  ok (record { control_stage = stage; workspace_constraint = constraint; mission_sha256 = digest })

pub record Labels : Type 0 where
  pub status : ValidationStatus
  pub trajectory_id : String
  pub frame_id : String
  pub task_mode : String

-- The fields that have to agree with the plan and its artifact.
pub labels_of : TrajectoryArtifact → ValidationStatus → Members → Outcome Labels
unfolding status_of_plan text_field
labels_of artifact expected ms = do
  status ← status_of_plan expected ms
  id ← at_key "trajectory_id" ms >>= read_identifier
  check (str_eq id artifact.trajectory_id) (value_error artifact_mismatch)
  phase ← text_field "phase" (phase_name artifact.phase) ms
  frame ← text_field "frame_id" "machine_root_ros" ms
  mode ← text_field "task_mode" (task_mode_of artifact.phase) ms
  ok (record { status = status; trajectory_id = id; frame_id = frame; task_mode = mode })

pub record Tracking : Type 0 where
  pub mission_id : String
  pub waypoints : List Point
  pub tolerance : Float
  pub intermediate : Float
  pub dwell : Float
  pub timeout : Float

-- The waypoints and how they are tracked.
pub tracking_of : Members → Outcome Tracking
unfolding intermediate_tolerance
tracking_of ms = do
  tolerance ← at_key "waypoint_tolerance_m" ms >>= positive_float
  mission ← at_key "mission_id" ms >>= read_identifier
  waypoints ← at_key "waypoints" ms >>= fixed_waypoints
  intermediate ← intermediate_tolerance tolerance ms
  dwell ← at_key "waypoint_dwell_s" ms >>= nonnegative_float
  timeout ← at_key "tracking_timeout_s" ms >>= positive_float
  ok (record {
    mission_id = mission;
    waypoints = waypoints;
    tolerance = tolerance;
    intermediate = intermediate;
    dwell = dwell;
    timeout = timeout;
  })

abbrev pub composed : TrajectoryArtifact → Labels → Scope → Tracking → Template
composed artifact labels scope tracking = record {
  trajectory_id = labels.trajectory_id;
  validation_status = labels.status;
  phase = artifact.phase;
  frame_id = labels.frame_id;
  mission_id = tracking.mission_id;
  mission_sha256 = scope.mission_sha256;
  task_mode = labels.task_mode;
  control_stage = scope.control_stage;
  workspace_constraint = scope.workspace_constraint;
  waypoints = tracking.waypoints;
  waypoint_tolerance_m = tracking.tolerance;
  intermediate_waypoint_tolerance_m = tracking.intermediate;
  waypoint_dwell_s = tracking.dwell;
  tracking_timeout_s = tracking.timeout;
}

-- `FixedTrajectoryTemplate.from_mapping`.
pub template : TrajectoryArtifact → ValidationStatus → Json → Outcome Template
unfolding labels_of template_scope_of tracking_of
template artifact expected (object ms) = do
  check
      (has_fields template_field_names ms
        || has_fields ("intermediate_waypoint_tolerance_m" ∷ template_field_names) ms)
      (value_error template_fields)
  schema ← at_key "schema_version" ms
  check (is_text schema "resident_fixed_trajectory.v1") (value_error template_fields)
  labels ← labels_of artifact expected ms
  scope ← template_scope_of ms
  tracking ← tracking_of ms
  ok (composed artifact labels scope tracking)
template artifact expected _ = raised (value_error template_fields)
