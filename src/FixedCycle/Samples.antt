-- ===== src/FixedCycle/Samples.antt =====
-- A plan of two dig points, read from its document: test data for
-- edge_runtime/resident_fixed_cycle.py.
use excavator_orin_runtime.Prelude.{◌≡◌, refl, String, false, some, [], ◌∷◌, str_eq, strip}
use excavator_orin_runtime.Prelude.Float.{pos}
use excavator_orin_runtime.Prelude.Fault.{ok}
use excavator_orin_runtime.Json.{
  Json, int, text, array, object, nil, cons, end, member, field, has_fields,
}
use excavator_orin_runtime.Protocol.{lookup}
use excavator_orin_runtime.FixedCycle.Values.{
  read_identifier, identifier, is_safe_id, read_integer, read_sha256, is_sha256, read_text,
}
use excavator_orin_runtime.FixedCycle.Dict.{get, put, distinct, entries, subset, texts_eq, build}
use excavator_orin_runtime.FixedCycle.Plan.{
  read_status, is_absolute, Phase, Plan, TrajectoryArtifact, field_validated, regime_factorized,
  dig, dump,
}
use excavator_orin_runtime.FixedCycle.Plan.Mapping.{from_mapping, catalog_artifact, catalog_entry}
use excavator_orin_runtime.FixedCycle.Plan.Mapping.Facts.{IsPlan, from_mapping-IsPlan}

abbrev pub digest : String
digest = "0123456789abcdef0123456789abcdef0123456789abcdef0123456789abcdef"

abbrev pub plan_json : Json
plan_json = object (
    member "schema_version" (text "resident_fixed_cycle_plan.v4") (
      member "plan_id" (text "plan-1") (
        member "validation_status" (text "field_validated") (
          member "mission_profile" (text "regime_factorized") (
            member "dig_sequence" (array (cons (text "p1") (cons (text "p2") nil))) (
              member "default_dig_group" (text "all") (
                member "dig_groups"
                  (object (
                    member "all" (array (cons (text "p1") (cons (text "p2") nil)))
                      (member "left" (array (cons (text "p2") nil)) end)))
                  (member "act_max_steps" (int (pos 400)) (
                    member "source_catalog_sha256" (text digest) (
                      member "target_catalog"
                        (object (
                          member "catalog_id" (text "catalog-1") (
                            member "path" (text "/opt/targets.json")
                              (member "sha256" (text digest) end))))
                        end))))))))))

abbrev pub artifact_for : String → Phase → TrajectoryArtifact
artifact_for target phase = record {
  trajectory_id = target;
  phase = phase;
  path = "/opt/targets.json";
  sha256 = digest;
}

abbrev pub sample_plan : Plan
sample_plan = record {
  plan_id = "plan-1";
  validation_status = field_validated;
  mission_profile = regime_factorized;
  dig_sequence = "p1" ∷ "p2" ∷ [];
  default_dig_group = "all";
  dig_groups = ("all", "p1" ∷ "p2" ∷ []) ∷ ("left", "p2" ∷ []) ∷ [];
  act_max_steps = 400;
  source_catalog_sha256 = digest;
  trajectories =
      ("p1", artifact_for "catalog-1:p1" dig)
      ∷ ("p2", artifact_for "catalog-1:p2" dig)
      ∷ ("dump", artifact_for "catalog-1:dump" dump)
      ∷ [];
  target_catalog =
      some (record { catalog_id = "catalog-1"; path = "/opt/targets.json"; sha256 = digest });
}

pub reads_plan : from_mapping false plan_json ≡ ok sample_plan
unfolding from_mapping field str_eq has_fields lookup read_status read_identifier identifier
    is_safe_id distinct entries put subset get texts_eq read_integer read_sha256 is_sha256 read_text
    strip catalog_artifact is_absolute build catalog_entry
reads_plan = refl

pub sample_plan-IsPlan : IsPlan sample_plan
sample_plan-IsPlan = from_mapping-IsPlan false plan_json reads_plan
