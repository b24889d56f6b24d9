-- ===== src/FixedCycle/Plan/Mapping/TargetArtifacts.antt =====
-- The artifacts of the targets that a plan of edge_runtime/resident_fixed_cycle.py holds.
use excavator_orin_runtime.Prelude.{
  ◌≡◌, refl, String, true, Option, none, some, List, [], str_eq, ap, ◌∙◌, arith,
}
use excavator_orin_runtime.Prelude.Fault.{ok}
use excavator_orin_runtime.Json.{
  Json, null, truth, int, real, text, array, object, Members, has_fields, listed,
}
use excavator_orin_runtime.Protocol.{◌>>=◌}
use excavator_orin_runtime.FixedCycle.Values.{read_identifier, read_text, read_sha256}
use excavator_orin_runtime.FixedCycle.Dict.{get, build, get-build}
use excavator_orin_runtime.FixedCycle.Ensures.{split_reading, test-passed}
use excavator_orin_runtime.FixedCycle.Plan.{
  Schema, legacy, profiled, grouped, cataloged, TrajectoryArtifact, at_key, CatalogArtifact, Phase,
  phase_of, phase_name, artifact_field_names,
}
use excavator_orin_runtime.FixedCycle.Plan.Mapping.{
  Artifacts, artifacts_of, listed_artifacts, catalog_artifacts, catalog_artifact, catalog_entry,
  trajectory_artifact, read_path,
}

-- Every target has its artifact, of the phase of the target; and with a catalog it is the catalog's.
abbrev pub ArtifactsOf :
    Option CatalogArtifact → List String → List (String × TrajectoryArtifact) → Type 0
ArtifactsOf catalog targets artifacts =
    (t : String)
    → listed t targets ≡ true
    → (a : TrajectoryArtifact) × (get t artifacts ≡ some a)
      × (a.phase ≡ phase_of t)
      × ((c : CatalogArtifact) → catalog ≡ some c → a ≡ catalog_entry c t)

catalog_artifacts_lem :
    (targets : List String) (v : Json) {a : Artifacts}
    → catalog_artifacts targets v ≡ ok a
    → ArtifactsOf a.0 targets a.1
unfolding catalog_artifacts
catalog_artifacts_lem targets v {a} h =
    let (catalog, h1, _) = split_reading (catalog_artifact v) _ h in
    let (artifacts, h2, e) = split_reading (build _ [] targets) _ h1 in
    let same : ◌≡◌ {A = Artifacts} (some catalog, artifacts) a = cc in
    rw (← same) (λ t m.
      let (x, p, q) = get-build _ t artifacts targets e m in
      let known : x ≡ catalog_entry catalog t = cc in
      (
        x,
        q,
        rw known (unfold catalog_entry in refl),
        λ c d. known ∙ ap (λ (k : CatalogArtifact). catalog_entry k t) (cc),
      ))

trajectory_artifact-phase :
    (expected : Phase) (v : Json) {a : TrajectoryArtifact}
    → trajectory_artifact expected v ≡ ok a
    → a.phase ≡ expected
unfolding trajectory_artifact
trajectory_artifact-phase expected (object ms) h =
    let (_, h1) = test-passed (has_fields artifact_field_names ms) _ _ h in
    let (phase, h2, _) = split_reading (at_key "phase" ms >>= read_text) _ h1 in
    let (_, h3) = test-passed (str_eq phase (phase_name expected)) _ _ h2 in
    let (path, h4, _) = split_reading (at_key "path" ms >>= read_path) _ h3 in
    let (digest, h5, _) = split_reading (at_key "sha256" ms >>= read_sha256) _ h4 in
    let (id, h6, _) = split_reading (at_key "trajectory_id" ms >>= read_identifier) _ h5 in
    ground arith
trajectory_artifact-phase expected null h = absurd (cc)
trajectory_artifact-phase expected (truth b) h = absurd (cc)
trajectory_artifact-phase expected (int n) h = absurd (cc)
trajectory_artifact-phase expected (real x) h = absurd (cc)
trajectory_artifact-phase expected (text s) h = absurd (cc)
trajectory_artifact-phase expected (array is) h = absurd (cc)

listed_artifacts_lem :
    (targets : List String) (v : Json) {a : Artifacts}
    → listed_artifacts targets v ≡ ok a
    → ArtifactsOf a.0 targets a.1
unfolding listed_artifacts
listed_artifacts_lem targets (object ms) {a} h =
    let (_, h1) = test-passed (has_fields targets ms) _ _ h in
    let (artifacts, h2, e) = split_reading (build _ [] targets) _ h1 in
    let same : ◌≡◌ {A = Artifacts} (none, artifacts) a = cc in
    rw (← same) (λ t m.
      let (x, p, q) = get-build _ t artifacts targets e m in
      let (w, r, _) = split_reading (at_key t ms) _ p in
      (x, q, trajectory_artifact-phase (phase_of t) w r, λ c d. absurd (cc)))
listed_artifacts_lem targets null h = absurd (cc)
listed_artifacts_lem targets (truth b) h = absurd (cc)
listed_artifacts_lem targets (int n) h = absurd (cc)
listed_artifacts_lem targets (real x) h = absurd (cc)
listed_artifacts_lem targets (text s) h = absurd (cc)
listed_artifacts_lem targets (array is) h = absurd (cc)

pub artifacts_of_lem :
    (schema : Schema) (targets : List String) (ms : Members) {a : Artifacts}
    → artifacts_of schema targets ms ≡ ok a
    → ArtifactsOf a.0 targets a.1
unfolding artifacts_of
artifacts_of_lem cataloged targets ms h =
    let (v, h1, _) = split_reading (at_key "target_catalog" ms) _ h in
    catalog_artifacts_lem targets v h1
artifacts_of_lem legacy targets ms h =
    let (v, h1, _) = split_reading (at_key "trajectories" ms) _ h in
    listed_artifacts_lem targets v h1
artifacts_of_lem profiled targets ms h =
    let (v, h1, _) = split_reading (at_key "trajectories" ms) _ h in
    listed_artifacts_lem targets v h1
artifacts_of_lem grouped targets ms h =
    let (v, h1, _) = split_reading (at_key "trajectories" ms) _ h in
    listed_artifacts_lem targets v h1
