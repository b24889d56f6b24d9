-- ===== src/FixedCycle/Templates/Catalogs/Facts.antt =====
-- What the templates of a target catalog of edge_runtime/resident_fixed_cycle.py have of the plan.
use mathlib.Core.Path.{subst}
use excavator_orin_runtime.Prelude.{◌≡◌, String, true, some, List, arith, str_eq}
use excavator_orin_runtime.Prelude.Fault.{ok}
use excavator_orin_runtime.Json.{
  Json, null, truth, int, real, text, array, object, Members, listed, has_fields, is_text,
}
use excavator_orin_runtime.Protocol.{◌>>=◌}
use excavator_orin_runtime.FixedCycle.Values.{
  read_identifier, positive_float, nonnegative_float, read_point,
}
use excavator_orin_runtime.FixedCycle.Dict.{get, get-build}
use excavator_orin_runtime.FixedCycle.Ensures.{split_reading, test-passed}
use excavator_orin_runtime.FixedCycle.Plan.{
  CatalogArtifact, Plan, phase_of, ValidationStatus, at_key,
}
use excavator_orin_runtime.FixedCycle.Plan.Mapping.{trajectory_target_ids, catalog_entry}
use excavator_orin_runtime.FixedCycle.Templates.{Template, status_of_plan, catalog_field_names}
use excavator_orin_runtime.FixedCycle.Templates.Fits.{Fits, status_of_plan-eq}
use excavator_orin_runtime.FixedCycle.Templates.Catalogs.{
  Catalog, catalog_status, catalog_scope_of, target_positions, same_points, tolerances, catalog_of,
  catalog_template, catalog_registry, waypoint_for,
}

module _ (p : Plan) (artifact : CatalogArtifact) (ms : Members) where
  catalog_status-eq :
      {s : ValidationStatus} → catalog_status p artifact ms ≡ ok s → s ≡ p.validation_status
  unfolding catalog_status
  catalog_status-eq h =
      let (schema, h1, _) = split_reading (at_key "schema_version" ms) _ h in
      let (_, h2) = test-passed (is_text schema "resident_fixed_target_catalog.v1") _ _ h1 in
      let (id, h3, _) = split_reading (at_key "catalog_id" ms >>= read_identifier) _ h2 in
      let (_, h4) = test-passed (str_eq id artifact.catalog_id) _ _ h3 in
      let (s, h5, e) = split_reading (status_of_plan p.validation_status ms) _ h4 in
      let (frame, h6, _) = split_reading (at_key "frame_id" ms) _ h5 in
      let (_, h7) = test-passed (is_text frame "machine_root_ros") _ (ok s) h6 in
      let q = status_of_plan-eq p.validation_status ms e in cc

  catalog_of-status :
      {c : Catalog} → catalog_of p artifact ms ≡ ok c → c.status ≡ p.validation_status
  unfolding catalog_of
  catalog_of-status h =
      let (_, h1) = test-passed (has_fields catalog_field_names ms) _ _ h in
      let (s, h2, e) = split_reading (catalog_status p artifact ms) _ h1 in
      let (scope, h3, _) = split_reading (catalog_scope_of s ms) _ h2 in
      let (points, h4, _) = split_reading (at_key "dig_points" ms >>= target_positions) _ h3 in
      let (_, h5) = test-passed (same_points points p.dig_sequence) _ _ h4 in
      let (dump_target, h6, _) = split_reading (at_key "dump_target" ms >>= read_point) _ h5 in
      let (tolerance, h7, _) = split_reading (tolerances ms) _ h6 in
      let q = catalog_status-eq e in ground arith

  catalog_template-Fits :
      (c : Catalog) (target : String) {t : Template}
      → catalog_template artifact c ms target ≡ ok t
      → Fits (catalog_entry artifact target) c.status t
  unfolding catalog_template catalog_entry
  catalog_template-Fits c target h =
      let (mission, h1, _) = split_reading (at_key "mission_id" ms >>= read_identifier) _ h in
      let (waypoint, h2, _) = split_reading (waypoint_for c target (phase_of target)) _ h1 in
      let (dwell, h3, _) =
        split_reading (at_key "waypoint_dwell_s" ms >>= nonnegative_float) _ h2 in
      let (timeout, h4, _) =
        split_reading (at_key "tracking_timeout_s" ms >>= positive_float) _ h3 in
      (ground arith, ground arith, ground arith)

-- The registry of a catalog has a template of each target, as the catalog's entry says.
pub catalog_registry-Fits :
    (p : Plan) (artifact : CatalogArtifact) (v : Json) (target : String)
    {r : List (String × Template)}
    → catalog_registry p artifact v ≡ ok r
    → listed target (trajectory_target_ids p) ≡ true
    → (t : Template) × (get target r ≡ some t)
      × Fits (catalog_entry artifact target) p.validation_status t
unfolding catalog_registry
catalog_registry-Fits p artifact (object ms) target {r} h m =
    let (c, h1, e) = split_reading (catalog_of p artifact ms) _ h in
    let (t, q, g) =
      get-build (catalog_template artifact c ms) target r (trajectory_target_ids p) h1 m in
    (
      t,
      g,
      subst (λ (s : ValidationStatus). Fits (catalog_entry artifact target) s t)
          (catalog_of-status p artifact ms e) (catalog_template-Fits p artifact ms c target q),
    )
catalog_registry-Fits p artifact null target h m = absurd (cc)
catalog_registry-Fits p artifact (truth b) target h m = absurd (cc)
catalog_registry-Fits p artifact (int n) target h m = absurd (cc)
catalog_registry-Fits p artifact (real x) target h m = absurd (cc)
catalog_registry-Fits p artifact (text s) target h m = absurd (cc)
catalog_registry-Fits p artifact (array is) target h m = absurd (cc)
