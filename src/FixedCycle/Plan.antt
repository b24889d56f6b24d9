-- ===== src/FixedCycle/Plan.antt =====
-- edge_runtime/resident_fixed_cycle.py: `FixedCyclePlan.from_mapping` and what it reads.
use Prim.Native.String.{◌++◌ as ◌<>◌}
pub mod Mapping
use excavator_orin_runtime.Prelude.{
  ℕ, String, Bool, true, false, ◌&&◌, ◌||◌, not, Option, none, some, List, [], ◌∷◌, ◌++◌,
  if◌then◌else◌, str_eq, is_some, strip,
}
use excavator_orin_runtime.Prelude.Fault.{
  Outcome, ok, raised, value_error, type_error, key_error, missing_key, unhashable, plan_fields,
  plan_schema, plan_profile, validation_status, plan_sequence, plan_groups, plan_default_group,
  plan_trajectories, artifact_fields, artifact_phase, artifact_path,
}
use excavator_orin_runtime.Json.{
  Json, text, array, object, Items, nil, cons, Members, end, field, has_fields, is_text, listed,
}
use excavator_orin_runtime.Protocol.{◌>>=◌, ◌>>◌, check, lookup}
use excavator_orin_runtime.FixedCycle.Values.{
  identifier, read_identifier, read_text, read_sha256, read_integer,
}
use excavator_orin_runtime.FixedCycle.Dict.{get, put, entries, distinct, subset, texts_eq}

pub data Schema : Type 0 where
  legacy profiled grouped cataloged : Schema

pub data MissionProfile : Type 0 where
  regime_factorized act_full_cycle : MissionProfile

pub data ValidationStatus : Type 0 where
  field_validated candidate : ValidationStatus

pub data Phase : Type 0 where
  dig dump : Phase

abbrev pub phase_name : Phase → String
phase_name dig = "dig"
phase_name dump = "dump"

-- `"dump" if target_id == "dump" else "dig"`.
abbrev pub phase_of : String → Phase
phase_of target = if str_eq target "dump" then dump else dig

pub record TrajectoryArtifact : Type 0 where
  pub trajectory_id : String
  pub phase : Phase
  pub path : String
  pub sha256 : String

pub record CatalogArtifact : Type 0 where
  pub catalog_id : String
  pub path : String
  pub sha256 : String

pub record Plan : Type 0 where
  pub plan_id : String
  pub validation_status : ValidationStatus
  pub mission_profile : MissionProfile
  pub dig_sequence : List String
  pub default_dig_group : String
  pub dig_groups : List (String × List String)
  pub act_max_steps : ℕ
  pub source_catalog_sha256 : String
  pub trajectories : List (String × TrajectoryArtifact)
  pub target_catalog : Option CatalogArtifact

abbrev pub plan_v1_fields : List String
plan_v1_fields =
    "schema_version" ∷ "plan_id" ∷ "validation_status" ∷ "dig_sequence" ∷ "act_max_steps"
    ∷ "trajectories" ∷ []

abbrev pub plan_v4_fields : List String
plan_v4_fields =
    "schema_version" ∷ "plan_id" ∷ "validation_status" ∷ "mission_profile" ∷ "dig_sequence"
    ∷ "default_dig_group" ∷ "dig_groups" ∷ "act_max_steps" ∷ "source_catalog_sha256"
    ∷ "target_catalog" ∷ []

abbrev pub plan_field_names : Schema → List String
plan_field_names legacy = plan_v1_fields
plan_field_names profiled = "mission_profile" ∷ plan_v1_fields
plan_field_names grouped = "default_dig_group" ∷ "dig_groups" ∷ "mission_profile" ∷ plan_v1_fields
plan_field_names cataloged = plan_v4_fields

abbrev pub artifact_field_names : List String
artifact_field_names = "trajectory_id" ∷ "phase" ∷ "path" ∷ "sha256" ∷ []

abbrev pub catalog_artifact_field_names : List String
catalog_artifact_field_names = "catalog_id" ∷ "path" ∷ "sha256" ∷ []

-- `Path(text).is_absolute()`.
unfoldable pub is_absolute : String → Bool
is_absolute String.[] = false
is_absolute (String.◌∷◌ c s) = str_eq (String.◌∷◌ c String.[]) "/"

-- `value[key]` after the check of the fields.
abbrev pub at_key : String → Members → Outcome Json
at_key k ms = lookup k ms (key_error missing_key)

-- A list or a dict cannot be looked up in a dict of schemas or a set of profiles.
schema_named : String → Outcome Schema
schema_named s =
    if str_eq s "resident_fixed_cycle_plan.v1"
    then ok legacy
    else if str_eq s "resident_fixed_cycle_plan.v2"
    then ok profiled
    else if str_eq s "resident_fixed_cycle_plan.v3"
    then ok grouped
    else if str_eq s "resident_fixed_cycle_plan.v4"
    then ok cataloged
    else raised (value_error plan_schema)

pub schema_of : Option Json → Outcome Schema
unfolding schema_named
schema_of (some (text s)) = schema_named s
schema_of (some (array is)) = raised (type_error unhashable)
schema_of (some (object ms)) = raised (type_error unhashable)
schema_of _ = raised (value_error plan_schema)

read_profile : Json → Outcome MissionProfile
read_profile (text s) =
    if str_eq s "regime_factorized"
    then ok regime_factorized
    else if str_eq s "act_full_cycle"
    then ok act_full_cycle
    else raised (value_error plan_profile)
read_profile (array is) = raised (type_error unhashable)
read_profile (object ms) = raised (type_error unhashable)
read_profile _ = raised (value_error plan_profile)

pub profile_of : Schema → Members → Outcome MissionProfile
unfolding read_profile
profile_of legacy ms = ok regime_factorized
profile_of _ ms = at_key "mission_profile" ms >>= read_profile

-- `_validation_status`.
unfoldable pub read_status : Bool → Json → Outcome ValidationStatus
read_status allow_candidate (text s) =
    if str_eq s "field_validated"
    then ok field_validated
    else if allow_candidate && str_eq s "candidate"
    then ok candidate
    else raised (value_error validation_status)
read_status allow_candidate _ = raised (value_error validation_status)

pub read_identifiers : Items → Outcome (List String)
read_identifiers nil = ok []
read_identifiers (cons v is) = do k ← read_identifier v; ks ← read_identifiers is; ok (k ∷ ks)

-- A non-empty list of distinct identifiers.
pub read_point_ids : Json → Outcome (List String)
unfolding read_identifiers
read_point_ids (array (cons v is)) = do
  ids ← read_identifiers (cons v is)
  check (distinct ids) (value_error plan_sequence)
  ok ids
read_point_ids _ = raised (value_error plan_sequence)

pub read_group : List String → Json → Outcome (List String)
unfolding read_point_ids
read_group sequence v = do
  ids ← read_point_ids v
  check (subset ids sequence) (value_error plan_groups)
  ok ids

-- The loop of `_dig_groups`.
pub read_groups :
    List String
    → List (String × List String)
    → List (String × Json)
    → Outcome (List (String × List String))
unfolding read_group
read_groups sequence groups [] = ok groups
read_groups sequence groups ((key, v) ∷ rest) = do
  group_id ← identifier key
  ids ← read_group sequence v
  read_groups sequence (put group_id ids groups) rest

abbrev pub no_members : Members → Bool
no_members end = true
no_members _ = false

abbrev pub is_exactly : List String → Option (List String) → Bool
is_exactly sequence none = false
is_exactly sequence (some ids) = subset ids sequence && subset sequence ids && texts_eq ids sequence

-- `_dig_groups`.
pub dig_groups : Json → List String → Outcome (List (String × List String))
unfolding read_groups
dig_groups (object ms) sequence = do
  check (not (no_members ms)) (value_error plan_groups)
  groups ← read_groups sequence [] (entries ms)
  check (is_exactly sequence (get "all" groups)) (value_error plan_groups)
  ok groups
dig_groups _ sequence = raised (value_error plan_groups)

abbrev pub Groups : Type 0
Groups = String × List (String × List String)

pub grouped_points : Members → List String → Outcome Groups
unfolding dig_groups
grouped_points ms sequence = do
  default_id ← at_key "default_dig_group" ms >>= read_identifier
  value ← at_key "dig_groups" ms
  groups ← dig_groups value sequence
  check (is_some (get default_id groups)) (value_error plan_default_group)
  ok (default_id, groups)

pub groups_of : Schema → Members → List String → Outcome Groups
unfolding grouped_points
groups_of legacy ms sequence = ok ("all", ("all", sequence) ∷ [])
groups_of profiled ms sequence = ok ("all", ("all", sequence) ∷ [])
groups_of _ ms sequence = grouped_points ms sequence
