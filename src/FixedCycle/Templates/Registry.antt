-- ===== src/FixedCycle/Templates/Registry.antt =====
-- edge_runtime/resident_fixed_cycle.py: the registry of the verified artifacts. Files, the digest and
-- the reading of a payload as JSON are parameters: `_read_regular_file_no_follow`, `hashlib.sha256`
-- and `json.loads` of the decoded bytes, which gives none where either fails.
pub mod Verified
use excavator_orin_runtime.Prelude.{
  ◌≡◌, refl, sym, ◌∙◌, String, Bool, true, false, ◌&&◌, not, Option, none, some, List, [], ◌∷◌,
  arith, str_eq, str_eq_iff, Option-cases, inl, inr, ◌⊎◌,
}
use excavator_orin_runtime.Prelude.Fault.{
  Error, Outcome, ok, raised, value_error, key_error, missing_key, artifact_mismatch, template_json,
  plan_not_validated,
}
use excavator_orin_runtime.Json.{Json, object, Members, listed}
use excavator_orin_runtime.Protocol.{◌>>=◌, ◌>>◌, check}
use excavator_orin_runtime.FixedCycle.Dict.{get, build, get-build}
use excavator_orin_runtime.FixedCycle.Ensures.{split_reading, test-passed}
use excavator_orin_runtime.FixedCycle.Plan.{
  TrajectoryArtifact, CatalogArtifact, Plan, phase_of, Phase,
}
use excavator_orin_runtime.FixedCycle.Plan.Mapping.{trajectory_target_ids}
use excavator_orin_runtime.FixedCycle.Templates.{Template, template, is_candidate}
use excavator_orin_runtime.FixedCycle.Templates.Catalogs.{catalog_registry}

-- A dict's value, or KeyError.
abbrev pub present {ℓ} : {A : Type ℓ} → Option A → Outcome A
present none = raised (key_error missing_key)
present (some a) = ok a

abbrev pub head_of : List String → Option String
head_of [] = none
head_of (t ∷ ts) = some t

abbrev pub readable : Option Json → Outcome Json
readable none = raised (value_error template_json)
readable (some v) = ok v

module _ {Bytes : Type 0} (read_file : String → Outcome Bytes) (sha256 : Bytes → String)
    (parse : Bytes → Option Json) where
  -- A file whose bytes have the digest.
  pub verified_file : String → String → Outcome Bytes
  verified_file path digest = do
    payload ← read_file path
    check (str_eq (sha256 payload) digest) (value_error artifact_mismatch)
    ok payload

  pub verified_target : Plan → String → Outcome Bytes
  unfolding verified_file
  verified_target p target = do
    artifact ← present (get target p.trajectories)
    verified_file artifact.path artifact.sha256

  pub verify_for : Plan → Option CatalogArtifact → Outcome (List (String × Bytes))
  unfolding verified_file verified_target
  verify_for p (some catalog) = do
    payload ← verified_file catalog.path catalog.sha256
    build (λ target. ok payload) [] (trajectory_target_ids p)
  verify_for p none = build (verified_target p) [] (trajectory_target_ids p)

  -- `verify_fixed_cycle_artifacts`.
  unfoldable pub verify_artifacts : Plan → Outcome (List (String × Bytes))
  unfolding verify_for
  verify_artifacts p = verify_for p p.target_catalog

  -- The value of a payload.
  abbrev pub parsed : Bytes → Outcome Json
  parsed payload = readable (parse payload)

  pub read_template : Plan → List (String × Bytes) → String → Outcome Template
  read_template p payloads target = do
    payload ← present (get target payloads)
    v ← parsed payload
    artifact ← present (get target p.trajectories)
    template artifact p.validation_status v

  pub registry_for :
      Plan → List (String × Bytes) → Option CatalogArtifact → Outcome (List (String × Template))
  unfolding read_template
  registry_for p payloads (some catalog) = do
    target ← present (head_of (trajectory_target_ids p))
    payload ← present (get target payloads)
    v ← parsed payload
    catalog_registry p catalog v
  registry_for p payloads none = build (read_template p payloads) [] (trajectory_target_ids p)

  -- `load_fixed_cycle_registry`.
  unfoldable pub load_registry : Bool → Plan → Outcome (List (String × Template))
  unfolding verify_artifacts registry_for
  load_registry allow_candidate p = do
    check (not (is_candidate p.validation_status && not allow_candidate))
        (value_error plan_not_validated)
    payloads ← verify_artifacts p
    registry_for p payloads p.target_catalog
