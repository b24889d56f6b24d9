-- ===== src/FixedCycle/Templates/Fits.antt =====
-- What a template of edge_runtime/resident_fixed_cycle.py has of its artifact and of the plan.
use excavator_orin_runtime.Prelude.{◌≡◌, refl, true, ◌∷◌, arith, str_eq, str_eq_iff, ◌||◌}
use excavator_orin_runtime.Prelude.Fault.{ok}
use excavator_orin_runtime.Json.{
  Json, null, truth, int, real, text, array, object, Members, has_fields, is_text,
}
use excavator_orin_runtime.Protocol.{◌>>=◌}
use excavator_orin_runtime.FixedCycle.Values.{read_identifier}
use excavator_orin_runtime.FixedCycle.Ensures.{split_reading, test-passed}
use excavator_orin_runtime.FixedCycle.Plan.{
  TrajectoryArtifact, phase_name, ValidationStatus, field_validated, candidate, at_key, read_status,
}
use excavator_orin_runtime.FixedCycle.Templates.{
  Template, template, is_candidate, status_eq, status_of_plan, text_field, labels_of, Labels,
  template_scope_of, tracking_of, template_field_names, task_mode_of,
}

status_eq-eq : (a b : ValidationStatus) → status_eq a b ≡ true → a ≡ b
status_eq-eq candidate candidate h = refl
status_eq-eq field_validated field_validated h = refl
status_eq-eq candidate field_validated h = absurd (cc)
status_eq-eq field_validated candidate h = absurd (cc)

-- What a template has of its artifact and its plan.
abbrev pub Fits : TrajectoryArtifact → ValidationStatus → Template → Type 0
Fits a status t =
    (t.trajectory_id ≡ a.trajectory_id) × (t.phase ≡ a.phase) × (t.validation_status ≡ status)

pub status_of_plan-eq :
    (expected : ValidationStatus) (ms : Members) {s : ValidationStatus}
    → status_of_plan expected ms ≡ ok s
    → s ≡ expected
unfolding status_of_plan
status_of_plan-eq expected ms h =
    let (s, h1, _) =
      split_reading (at_key "validation_status" ms >>= read_status (is_candidate expected)) _ h in
    let (t, h2) = test-passed (status_eq s expected) _ (ok s) h1 in
    let e = status_eq-eq s expected t in cc

module _ (a : TrajectoryArtifact) (expected : ValidationStatus) where
  labels_of_lem :
      (ms : Members) {l : Labels}
      → labels_of a expected ms ≡ ok l
      → (l.trajectory_id ≡ a.trajectory_id) × (l.status ≡ expected)
  unfolding labels_of
  labels_of_lem ms h =
      let (s, h1, e) = split_reading (status_of_plan expected ms) _ h in
      let (id, h2, _) = split_reading (at_key "trajectory_id" ms >>= read_identifier) _ h1 in
      let (t, h3) = test-passed (str_eq id a.trajectory_id) _ _ h2 in
      let (phase, h4, _) = split_reading (text_field "phase" (phase_name a.phase) ms) _ h3 in
      let (frame, h5, _) = split_reading (text_field "frame_id" "machine_root_ros" ms) _ h4 in
      let (mode, h6, _) = split_reading (text_field "task_mode" (task_mode_of a.phase) ms) _ h5 in
      let q = (str_eq_iff id a.trajectory_id).0 t in
      let r = status_of_plan-eq expected ms e in (ground arith, ground arith)

  pub template-Fits : (v : Json) {t : Template} → template a expected v ≡ ok t → Fits a expected t
  unfolding template
  template-Fits (object ms) h =
      let (_, h1) =
        test-passed
          (has_fields template_field_names ms
            || has_fields ("intermediate_waypoint_tolerance_m" ∷ template_field_names) ms)
          _ _ h in
      let (schema, h2, _) = split_reading (at_key "schema_version" ms) _ h1 in
      let (_, h3) = test-passed (is_text schema "resident_fixed_trajectory.v1") _ _ h2 in
      let (labels, h4, e) = split_reading (labels_of a expected ms) _ h3 in
      let (scope, h5, _) = split_reading (template_scope_of ms) _ h4 in
      let (tracking, h6, _) = split_reading (tracking_of ms) _ h5 in
      let (p, q) = labels_of_lem ms e in (ground arith, ground arith, ground arith)
  template-Fits null h = absurd (cc)
  template-Fits (truth b) h = absurd (cc)
  template-Fits (int n) h = absurd (cc)
  template-Fits (real x) h = absurd (cc)
  template-Fits (text s) h = absurd (cc)
  template-Fits (array is) h = absurd (cc)
