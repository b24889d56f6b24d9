-- ===== src/FixedCycle/Plan/Mapping.antt =====
-- edge_runtime/resident_fixed_cycle.py: the artifacts of a plan, and `FixedCyclePlan.from_mapping`
-- with what it reads put together.
pub mod PointGroups
pub mod TargetArtifacts
pub mod Facts
use Prim.Native.String.{◌++◌ as ◌<>◌}
use excavator_orin_runtime.Prelude.{
  ℕ, String, Bool, Option, none, some, List, [], ◌∷◌, ◌++◌, str_eq,
}
use excavator_orin_runtime.Prelude.Fault.{
  Outcome, ok, raised, value_error, plan_fields, plan_trajectories, artifact_fields, artifact_phase,
  artifact_path,
}
use excavator_orin_runtime.Json.{Json, object, Members, field, has_fields}
use excavator_orin_runtime.Protocol.{◌>>=◌, ◌>>◌, check}
use excavator_orin_runtime.FixedCycle.Values.{read_identifier, read_text, read_sha256, read_integer}
use excavator_orin_runtime.FixedCycle.Dict.{build}
use excavator_orin_runtime.FixedCycle.Plan.{
  Schema, cataloged, MissionProfile, regime_factorized, act_full_cycle, Phase, phase_name, phase_of,
  TrajectoryArtifact, CatalogArtifact, Plan, plan_field_names, artifact_field_names,
  catalog_artifact_field_names, is_absolute, at_key, schema_of, profile_of, read_status,
  ValidationStatus, Groups, read_point_ids, groups_of,
}

-- `Path(_text(...))`, which has to be absolute.
pub read_path : Json → Outcome String
read_path v = do path ← read_text v; check (is_absolute path) (value_error artifact_path); ok path

-- `FixedTrajectoryArtifact.from_mapping`.
unfoldable pub trajectory_artifact : Phase → Json → Outcome TrajectoryArtifact
unfolding read_path
trajectory_artifact expected (object ms) = do
  check (has_fields artifact_field_names ms) (value_error artifact_fields)
  phase ← at_key "phase" ms >>= read_text
  check (str_eq phase (phase_name expected)) (value_error artifact_phase)
  path ← at_key "path" ms >>= read_path
  sha256 ← at_key "sha256" ms >>= read_sha256
  trajectory_id ← at_key "trajectory_id" ms >>= read_identifier
  ok (record { trajectory_id = trajectory_id; phase = expected; path = path; sha256 = sha256 })
trajectory_artifact expected _ = raised (value_error artifact_fields)

-- `FixedTargetCatalogArtifact.from_mapping`.
unfoldable pub catalog_artifact : Json → Outcome CatalogArtifact
unfolding read_path
catalog_artifact (object ms) = do
  check (has_fields catalog_artifact_field_names ms) (value_error artifact_fields)
  path ← at_key "path" ms >>= read_path
  sha256 ← at_key "sha256" ms >>= read_sha256
  catalog_id ← at_key "catalog_id" ms >>= read_identifier
  ok (record { catalog_id = catalog_id; path = path; sha256 = sha256 })
catalog_artifact _ = raised (value_error artifact_fields)

-- `(*sequence, "dump")` for the factorized profile, else the sequence.
abbrev pub targets_of : MissionProfile → List String → List String
targets_of regime_factorized sequence = sequence ++ "dump" ∷ []
targets_of act_full_cycle sequence = sequence

-- `FixedCyclePlan.trajectory_target_ids`.
abbrev pub trajectory_target_ids : Plan → List String
trajectory_target_ids p = targets_of p.mission_profile p.dig_sequence

-- The artifact of one target of a catalog.
unfoldable pub catalog_entry : CatalogArtifact → String → TrajectoryArtifact
catalog_entry c target = record {
  trajectory_id = c.catalog_id <> ":" <> target;
  phase = phase_of target;
  path = c.path;
  sha256 = c.sha256;
}

abbrev pub Artifacts : Type 0
Artifacts = Option CatalogArtifact × List (String × TrajectoryArtifact)

pub catalog_artifacts : List String → Json → Outcome Artifacts
unfolding catalog_entry catalog_artifact
catalog_artifacts targets v = do
  catalog ← catalog_artifact v
  artifacts ← build (λ target. ok (catalog_entry catalog target)) [] targets
  ok (some catalog, artifacts)

-- `set(raw) == targets` as sets, then each target's artifact.
pub listed_artifacts : List String → Json → Outcome Artifacts
unfolding trajectory_artifact
listed_artifacts targets (object ms) = do
  check (has_fields targets ms) (value_error plan_trajectories)
  artifacts ←
      build (λ target. at_key target ms >>= trajectory_artifact (phase_of target)) [] targets
  ok (none, artifacts)
listed_artifacts targets _ = raised (value_error plan_trajectories)

pub artifacts_of : Schema → List String → Members → Outcome Artifacts
unfolding catalog_artifacts listed_artifacts
artifacts_of cataloged targets ms = at_key "target_catalog" ms >>= catalog_artifacts targets
artifacts_of _ targets ms = at_key "trajectories" ms >>= listed_artifacts targets

pub source_digest : Schema → Members → Outcome String
source_digest cataloged ms = at_key "source_catalog_sha256" ms >>= read_sha256
source_digest _ ms = ok ""

-- The plan of what was read.
abbrev pub assembled :
    MissionProfile
    → ValidationStatus
    → List String
    → Groups
    → ℕ
    → String
    → Artifacts
    → String
    → Plan
assembled profile status sequence groups steps digest artifacts plan_id = record {
  plan_id = plan_id;
  validation_status = status;
  mission_profile = profile;
  dig_sequence = sequence;
  default_dig_group = groups.0;
  dig_groups = groups.1;
  act_max_steps = steps;
  source_catalog_sha256 = digest;
  trajectories = artifacts.1;
  target_catalog = artifacts.0;
}

-- `FixedCyclePlan.from_mapping`, once the sequence is read.
pub plan_on : Schema → MissionProfile → ValidationStatus → List String → Members → Outcome Plan
unfolding groups_of artifacts_of source_digest
plan_on schema profile status sequence ms = do
  groups ← groups_of schema ms sequence
  steps ← at_key "act_max_steps" ms >>= read_integer 1 2000
  digest ← source_digest schema ms
  artifacts ← artifacts_of schema (targets_of profile sequence) ms
  plan_id ← at_key "plan_id" ms >>= read_identifier
  ok (assembled profile status sequence groups steps digest artifacts plan_id)

-- `FixedCyclePlan.from_mapping`.
unfoldable pub from_mapping : Bool → Json → Outcome Plan
unfolding schema_of profile_of read_point_ids plan_on
from_mapping allow_candidate (object ms) = do
  schema ← schema_of (field "schema_version" ms)
  check (has_fields (plan_field_names schema) ms) (value_error plan_fields)
  profile ← profile_of schema ms
  status ← at_key "validation_status" ms >>= read_status allow_candidate
  sequence ← at_key "dig_sequence" ms >>= read_point_ids
  plan_on schema profile status sequence ms
from_mapping allow_candidate _ = raised (value_error plan_fields)
