-- ===== src/FixedCycle/Templates/Catalogs.antt =====
-- edge_runtime/resident_fixed_cycle.py: the templates of a target catalog, `_load_catalog_registry`.
pub mod Facts
use Prim.Native.String.{◌++◌ as ◌<>◌}
use excavator_orin_runtime.Prelude.{
  String, Bool, true, false, ◌&&◌, ◌||◌, not, Option, none, some, List, [], ◌∷◌, map, if◌then◌else◌,
  str_eq,
}
use excavator_orin_runtime.Prelude.Float.{Float, float_le}
use excavator_orin_runtime.Prelude.Fault.{
  Outcome, ok, raised, value_error, key_error, missing_key, template_fields, template_scope,
  artifact_mismatch, validation_status, catalog_scope, catalog_points, point_shape,
}
use excavator_orin_runtime.Json.{Json, object, Members, field, has_fields, is_text, listed}
use excavator_orin_runtime.Protocol.{◌>>=◌, ◌>>◌, check}
use excavator_orin_runtime.FixedCycle.Values.{
  Point, identifier, read_identifier, read_text, read_sha256, positive_float, nonnegative_float,
  fixed_waypoints, read_point,
}
use excavator_orin_runtime.FixedCycle.Dict.{get, put, entries, subset, build}
use excavator_orin_runtime.FixedCycle.Plan.{
  Phase, dig, dump, phase_name, phase_of, ValidationStatus, field_validated, candidate,
  TrajectoryArtifact, CatalogArtifact, Plan, at_key, read_status, no_members,
}
use excavator_orin_runtime.FixedCycle.Plan.Mapping.{trajectory_target_ids}
use excavator_orin_runtime.FixedCycle.Templates.{
  Template, is_candidate, status_of_plan, task_mode_of, catalog_field_names, Scope,
}

-- The loop of `_target_positions`.
read_positions : List (String × Point) → List (String × Json) → Outcome (List (String × Point))
read_positions points [] = ok points
read_positions points ((key, v) ∷ rest) = do
  id ← identifier key
  point ← read_point v
  read_positions (put id point points) rest

-- `_target_positions`.
pub target_positions : Json → Outcome (List (String × Point))
unfolding read_positions
target_positions (object ms) = do
  check (not (no_members ms)) (value_error point_shape)
  read_positions [] (entries ms)
target_positions _ = raised (value_error point_shape)

abbrev pub constraint_of : ValidationStatus → String
constraint_of candidate = "disabled_by_operator"
constraint_of field_validated = "field_validated"

abbrev pub same_points : List (String × Point) → List String → Bool
same_points points sequence =
    subset (map (λ e. e.0) points) sequence && subset sequence (map (λ e. e.0) points)

-- What `_load_catalog_registry` reads of a catalog for all its templates.
pub record Catalog : Type 0 where
  pub status : ValidationStatus
  pub control_stage : String
  pub workspace_constraint : String
  pub mission_sha256 : String
  pub points : List (String × Point)
  pub dump_target : Point
  pub tolerance : Float
  pub intermediate : Float

-- The status of a catalog whose schema, identifier, status and frame are the plan's.
pub catalog_status : Plan → CatalogArtifact → Members → Outcome ValidationStatus
unfolding status_of_plan
catalog_status p artifact ms = do
  schema ← at_key "schema_version" ms
  check (is_text schema "resident_fixed_target_catalog.v1") (value_error template_fields)
  id ← at_key "catalog_id" ms >>= read_identifier
  check (str_eq id artifact.catalog_id) (value_error artifact_mismatch)
  status ← status_of_plan p.validation_status ms
  frame ← at_key "frame_id" ms
  check (is_text frame "machine_root_ros") (value_error catalog_scope)
  ok status

-- The commissioning scope, which the status decides.
pub catalog_scope_of : ValidationStatus → Members → Outcome Scope
catalog_scope_of status ms = do
  stage ← at_key "control_stage" ms >>= read_text
  constraint ← at_key "workspace_constraint" ms >>= read_text
  check (str_eq stage "commissioning" && str_eq constraint (constraint_of status))
      (value_error catalog_scope)
  digest ← at_key "mission_sha256" ms >>= read_sha256
  ok (record { control_stage = stage; workspace_constraint = constraint; mission_sha256 = digest })

-- The tolerances, of which the intermediate one is no smaller.
pub tolerances : Members → Outcome (Float × Float)
tolerances ms = do
  tolerance ← at_key "waypoint_tolerance_m" ms >>= positive_float
  intermediate ← at_key "intermediate_waypoint_tolerance_m" ms >>= positive_float
  check (float_le tolerance intermediate) (value_error catalog_scope)
  ok (tolerance, intermediate)

abbrev pub catalogued :
    ValidationStatus → Scope → List (String × Point) → Point → Float × Float → Catalog
catalogued status scope points dump_target tolerance = record {
  status = status;
  control_stage = scope.control_stage;
  workspace_constraint = scope.workspace_constraint;
  mission_sha256 = scope.mission_sha256;
  points = points;
  dump_target = dump_target;
  tolerance = tolerance.0;
  intermediate = tolerance.1;
}

-- The checks of `_load_catalog_registry` up to the loop over the targets.
pub catalog_of : Plan → CatalogArtifact → Members → Outcome Catalog
unfolding catalog_status catalog_scope_of target_positions tolerances
catalog_of p artifact ms = do
  check (has_fields catalog_field_names ms) (value_error template_fields)
  status ← catalog_status p artifact ms
  scope ← catalog_scope_of status ms
  points ← at_key "dig_points" ms >>= target_positions
  check (same_points points p.dig_sequence) (value_error catalog_points)
  dump_target ← at_key "dump_target" ms >>= read_point
  tolerance ← tolerances ms
  ok (catalogued status scope points dump_target tolerance)

-- `dump_target if phase == "dump" else points[target_id]`.
pub waypoint_for : Catalog → String → Phase → Outcome Point
waypoint_for c target dump = ok c.dump_target
waypoint_for c target dig = elim (get target c.points) [
  | none ↦ raised (key_error missing_key)
  | some p ↦ ok p
]

-- One round of the loop of `_load_catalog_registry`.
pub catalog_template : CatalogArtifact → Catalog → Members → String → Outcome Template
unfolding waypoint_for
catalog_template artifact c ms target = do
  mission ← at_key "mission_id" ms >>= read_identifier
  waypoint ← waypoint_for c target (phase_of target)
  dwell ← at_key "waypoint_dwell_s" ms >>= nonnegative_float
  timeout ← at_key "tracking_timeout_s" ms >>= positive_float
  ok (record {
    trajectory_id = artifact.catalog_id <> ":" <> target;
    validation_status = c.status;
    phase = phase_of target;
    frame_id = "machine_root_ros";
    mission_id = mission;
    mission_sha256 = c.mission_sha256;
    task_mode = task_mode_of (phase_of target);
    control_stage = c.control_stage;
    workspace_constraint = c.workspace_constraint;
    waypoints = waypoint ∷ [];
    waypoint_tolerance_m = c.tolerance;
    intermediate_waypoint_tolerance_m = c.intermediate;
    waypoint_dwell_s = dwell;
    tracking_timeout_s = timeout;
  })

-- `_load_catalog_registry`, of the value that the payload's text stands for.
unfoldable pub catalog_registry : Plan → CatalogArtifact → Json → Outcome (List (String × Template))
unfolding catalog_of catalog_template
catalog_registry p artifact (object ms) = do
  catalog ← catalog_of p artifact ms
  build (catalog_template artifact catalog ms) [] (trajectory_target_ids p)
catalog_registry p artifact _ = raised (value_error template_fields)
