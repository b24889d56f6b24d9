-- ===== src/FixedCycle/Plan/Mapping/Facts.antt =====
-- The plans that `FixedCyclePlan.from_mapping` of edge_runtime/resident_fixed_cycle.py reads.
use excavator_orin_runtime.Prelude.{ℕ, ◌≤◌, ◌≡◌, String, Bool, true, some, List, is_some}
use excavator_orin_runtime.Prelude.Fault.{Outcome, ok}
use excavator_orin_runtime.Json.{
  Json, null, truth, int, real, text, array, object, Members, field, has_fields,
}
use excavator_orin_runtime.Protocol.{◌>>=◌}
use excavator_orin_runtime.FixedCycle.Values.{read_identifier, read_integer, read_integer_bounds}
use excavator_orin_runtime.FixedCycle.Dict.{get, distinct}
use excavator_orin_runtime.FixedCycle.Ensures.{split_reading, test-passed}
use excavator_orin_runtime.FixedCycle.Plan.{
  Schema, MissionProfile, ValidationStatus, Plan, at_key, read_status, read_point_ids, groups_of,
  schema_of, profile_of, plan_field_names,
}
use excavator_orin_runtime.FixedCycle.Plan.Mapping.{
  targets_of, trajectory_target_ids, artifacts_of, source_digest, assembled, plan_on, from_mapping,
}
use excavator_orin_runtime.FixedCycle.Plan.Mapping.PointGroups.{
  GroupsOf, PointIds, read_point_ids-PointIds, groups_of-WithDefault,
}
use excavator_orin_runtime.FixedCycle.Plan.Mapping.TargetArtifacts.{ArtifactsOf, artifacts_of_lem}

pub record IsPlan (p : Plan) : Type 0 where
  pub steps_low : 1 ≤ p.act_max_steps
  pub steps_high : p.act_max_steps ≤ 2000
  pub groups : GroupsOf p.dig_sequence p.dig_groups
  pub all_group : get "all" p.dig_groups ≡ some p.dig_sequence
  pub default_group : is_some (get p.default_dig_group p.dig_groups) ≡ true
  pub distinct_points : distinct p.dig_sequence ≡ true
  pub artifacts : ArtifactsOf p.target_catalog (trajectory_target_ids p) p.trajectories

abbrev Steps : ℕ → Type 0
Steps n = (1 ≤ n) × (n ≤ 2000)

read-Steps : (o : Outcome Json) {n : ℕ} → (o >>= read_integer 1 2000) ≡ ok n → Steps n
read-Steps o h = let (v, h1, _) = split_reading o _ h in read_integer_bounds 1 2000 v h1

read_sequence :
    (o : Outcome Json) {ids : List String} → (o >>= read_point_ids) ≡ ok ids → PointIds ids
read_sequence o h = let (v, h1, _) = split_reading o _ h in read_point_ids-PointIds v h1

plan_on-IsPlan :
    (schema : Schema) (profile : MissionProfile) (status : ValidationStatus)
    (sequence : List String) (ms : Members) {p : Plan}
    → PointIds sequence
    → plan_on schema profile status sequence ms ≡ ok p
    → IsPlan p
unfolding plan_on
plan_on-IsPlan schema profile status sequence ms {p} (nonempty, d) h =
    let (groups, h1, eg) = split_reading (groups_of schema ms sequence) _ h in
    let (steps, h2, en) = split_reading (at_key "act_max_steps" ms >>= read_integer 1 2000) _ h1 in
    let (digest, h3, _) = split_reading (source_digest schema ms) _ h2 in
    let (artifacts, h4, ea) =
      split_reading (artifacts_of schema (targets_of profile sequence) ms) _ h3 in
    let (plan_id, h5, _) = split_reading (at_key "plan_id" ms >>= read_identifier) _ h4 in
    let ((gs, al), df) = groups_of-WithDefault schema ms sequence nonempty eg in
    let (low, high) = read-Steps (at_key "act_max_steps" ms) en in
    let same : assembled profile status sequence groups steps digest artifacts plan_id ≡ p = cc in
    rw (← same) (record {
      steps_low = low;
      steps_high = high;
      groups = gs;
      all_group = al;
      default_group = df;
      distinct_points = d;
      artifacts = artifacts_of_lem schema (targets_of profile sequence) ms ea;
    })

-- A plan that is read is well-formed: its step budget lies in [1, 2000]; its points are distinct;
-- every dig group is non-empty and holds only points of the sequence, the group `all` is the
-- sequence, the default group exists; and every target of the profile has an artifact of its phase,
-- which is the catalog's where the plan names one.
pub from_mapping-IsPlan :
    (allow_candidate : Bool) (v : Json) {p : Plan}
    → from_mapping allow_candidate v ≡ ok p
    → IsPlan p
unfolding from_mapping
from_mapping-IsPlan allow_candidate (object ms) h =
    let (schema, h1, _) = split_reading (schema_of (field "schema_version" ms)) _ h in
    let (_, h2) = test-passed (has_fields (plan_field_names schema) ms) _ _ h1 in
    let (profile, h3, _) = split_reading (profile_of schema ms) _ h2 in
    let (status, h4, _) =
      split_reading (at_key "validation_status" ms >>= read_status allow_candidate) _ h3 in
    let (sequence, h5, es) = split_reading (at_key "dig_sequence" ms >>= read_point_ids) _ h4 in
    plan_on-IsPlan schema profile status sequence ms (read_sequence (at_key "dig_sequence" ms) es)
      h5
from_mapping-IsPlan allow_candidate null h = absurd (cc)
from_mapping-IsPlan allow_candidate (truth b) h = absurd (cc)
from_mapping-IsPlan allow_candidate (int n) h = absurd (cc)
from_mapping-IsPlan allow_candidate (real x) h = absurd (cc)
from_mapping-IsPlan allow_candidate (text s) h = absurd (cc)
from_mapping-IsPlan allow_candidate (array is) h = absurd (cc)
