-- ===== src/FixedCycle/Templates/Examples.antt =====
-- The registry of a catalog with two points, for edge_runtime/resident_fixed_cycle.py.
use excavator_orin_runtime.Prelude.{
  ◌≡◌, refl, String, false, Option, some, List, [], ◌∷◌, str_eq, strip,
}
use excavator_orin_runtime.Prelude.Float.{Float, finite, pos, float_le, is_finite}
use excavator_orin_runtime.Prelude.Fault.{Outcome, ok}
use excavator_orin_runtime.Json.{
  Json, real, text, array, object, nil, cons, end, member, field, has_fields,
}
use excavator_orin_runtime.Protocol.{lookup}
use excavator_orin_runtime.FixedCycle.Values.{
  Point, read_identifier, identifier, is_safe_id, read_sha256, is_sha256, read_text, read_point,
  finite_float, positive_float, nonnegative_float,
}
use excavator_orin_runtime.FixedCycle.Dict.{get, put, entries, subset, build}
use excavator_orin_runtime.FixedCycle.Plan.{Phase, dig, dump, field_validated, read_status}
use excavator_orin_runtime.FixedCycle.Templates.{Template, task_mode_of}
use excavator_orin_runtime.FixedCycle.Templates.Catalogs.{catalog_registry}
use excavator_orin_runtime.FixedCycle.Templates.Registry.{load_registry, verify_artifacts}
use excavator_orin_runtime.FixedCycle.Templates.Registry.Verified.{Sourced, load_registry_verified}
use excavator_orin_runtime.FixedCycle.Samples.{sample_plan, digest, sample_plan-IsPlan}

-- n * 2 ^ -1074.
abbrev num : Float → Json
num x = real x

abbrev one_unit : Float
one_unit = finite (pos 1)

abbrev point_json : Json
point_json = array (cons (num one_unit) (cons (num one_unit) (cons (num one_unit) nil)))

abbrev catalog_json : Json
catalog_json = object (
    member "schema_version" (text "resident_fixed_target_catalog.v1") (
      member "catalog_id" (text "catalog-1") (
        member "validation_status" (text "field_validated") (
          member "frame_id" (text "machine_root_ros") (
            member "mission_id" (text "mission-1") (
              member "mission_sha256" (text digest) (
                member "control_stage" (text "commissioning") (
                  member "workspace_constraint" (text "field_validated") (
                    member "dig_points"
                      (object (member "p2" point_json (member "p1" point_json end)))
                      (member "dump_target" point_json (
                        member "waypoint_tolerance_m" (num one_unit) (
                          member "intermediate_waypoint_tolerance_m" (num one_unit) (
                            member "waypoint_dwell_s" (num one_unit)
                              (member "tracking_timeout_s" (num one_unit) end))))))))))))))

abbrev unit_point : Point
unit_point = record { x = one_unit; y = one_unit; z = one_unit }

abbrev template_for : String → Phase → Template
template_for id phase = record {
  trajectory_id = id;
  validation_status = field_validated;
  phase = phase;
  frame_id = "machine_root_ros";
  mission_id = "mission-1";
  mission_sha256 = digest;
  task_mode = task_mode_of phase;
  control_stage = "commissioning";
  workspace_constraint = "field_validated";
  waypoints = unit_point ∷ [];
  waypoint_tolerance_m = one_unit;
  intermediate_waypoint_tolerance_m = one_unit;
  waypoint_dwell_s = one_unit;
  tracking_timeout_s = one_unit;
}

abbrev registry : List (String × Template)
registry =
    ("p1", template_for "catalog-1:p1" dig)
    ∷ ("p2", template_for "catalog-1:p2" dig)
    ∷ ("dump", template_for "catalog-1:dump" dump)
    ∷ []

-- The payload of a file is its path, every payload has the digest and the text of the catalog.
abbrev read_path : String → Outcome String
read_path path = ok path

abbrev digest_of : String → String
digest_of payload = digest

abbrev catalog_of_payload : String → Option Json
catalog_of_payload payload = some catalog_json

loads_registry :
    load_registry read_path digest_of catalog_of_payload false sample_plan ≡ ok registry
unfolding load_registry str_eq build get put catalog_registry has_fields lookup read_identifier
    is_safe_id read_status read_text strip read_sha256 is_sha256 entries read_point finite_float
    verify_artifacts identifier field is_finite subset positive_float nonnegative_float float_le
loads_registry = refl

load_registry_verified_example :
    (t : Template) × (get "p1" registry ≡ some t)
    × (t.phase ≡ dig)
    × Sourced read_path digest_of catalog_of_payload sample_plan sample_plan-IsPlan "p1" t
unfolding str_eq
load_registry_verified_example =
    load_registry_verified read_path digest_of catalog_of_payload sample_plan false registry "p1"
      sample_plan-IsPlan loads_registry refl
