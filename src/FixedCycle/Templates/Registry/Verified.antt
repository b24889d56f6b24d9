-- ===== src/FixedCycle/Templates/Registry/Verified.antt =====
-- The templates in the registry of edge_runtime/resident_fixed_cycle.py, and the bytes that they
-- were read from.
use mathlib.Core.Path.{subst}
use excavator_orin_runtime.Prelude.{
  ◌≡◌, refl, sym, ap, ◌∙◌, String, Bool, true, ◌&&◌, not, Option, none, some, List, [], ◌∷◌, arith,
  str_eq, str_eq_iff, str_eq_refl,
}
use excavator_orin_runtime.Prelude.Fault.{Outcome, ok}
use excavator_orin_runtime.Json.{Json, listed}
use excavator_orin_runtime.FixedCycle.Dict.{get, get-build}
use excavator_orin_runtime.FixedCycle.Ensures.{split_reading, test-passed}
use excavator_orin_runtime.FixedCycle.Plan.{TrajectoryArtifact, CatalogArtifact, Plan, phase_of}
use excavator_orin_runtime.FixedCycle.Plan.Mapping.{trajectory_target_ids, catalog_entry}
use excavator_orin_runtime.FixedCycle.Plan.Mapping.Facts.{IsPlan}
use excavator_orin_runtime.FixedCycle.Templates.{Template, is_candidate}
use excavator_orin_runtime.FixedCycle.Templates.Fits.{Fits, template-Fits}
use excavator_orin_runtime.FixedCycle.Templates.Catalogs.Facts.{catalog_registry-Fits}
use excavator_orin_runtime.FixedCycle.Templates.Registry.{
  verified_file, verified_target, verify_for, verify_artifacts, present, parsed, read_template,
  head_of, readable, registry_for, load_registry,
}

present-eq-ok {ℓ} : {A : Type ℓ} (o : Option A) {a : A} → present o ≡ ok a → o ≡ some a
present-eq-ok none h = absurd (cc)
present-eq-ok (some b) h = cc

readable-eq-ok : (o : Option Json) {v : Json} → readable o ≡ ok v → o ≡ some v
readable-eq-ok none h = absurd (cc)
readable-eq-ok (some w) h = cc

head_listed : (ts : List String) {t : String} → head_of ts ≡ some t → listed t ts ≡ true
head_listed [] h = absurd (cc)
head_listed (x ∷ xs) {t} h = let e : x ≡ t = cc in rw e (ground (arith, str_eq_refl t))

ok-eq {ℓ} : {A : Type ℓ} {a b : A} → ◌≡◌ {A = Outcome A} (ok a) (ok b) → a ≡ b
ok-eq h = cc

module _ {Bytes : Type 0} (read_file : String → Outcome Bytes) (sha256 : Bytes → String)
    (parse : Bytes → Option Json) (p : Plan) (wf : IsPlan p) where
  -- The bytes of the file of an artifact, with the artifact's digest.
  abbrev pub Verified : TrajectoryArtifact → Bytes → Type 0
  Verified a payload = (read_file a.path ≡ ok payload) × (sha256 payload ≡ a.sha256)

  verified_file_lem :
      (path digest : String) {payload : Bytes}
      → verified_file read_file sha256 parse path digest ≡ ok payload
      → (read_file path ≡ ok payload) × (sha256 payload ≡ digest)
  unfolding verified_file
  verified_file_lem path digest h =
      let (payload, h1, e) = split_reading (read_file path) _ h in
      let (t, h2) = test-passed (str_eq (sha256 payload) digest) _ (ok payload) h1 in
      let q = (str_eq_iff (sha256 payload) digest).0 t in (e ∙ h2, ap sha256 (sym (ok-eq h2)) ∙ q)

  -- The payload of a target, with the artifact that it belongs to.
  abbrev HasPayload : String → List (String × Bytes) → Type 0
  HasPayload target payloads =
      (payload : Bytes) × (a : TrajectoryArtifact) × (get target payloads ≡ some payload)
      × (get target p.trajectories ≡ some a)
      × Verified a payload
      × ((c : CatalogArtifact) → p.target_catalog ≡ some c → a ≡ catalog_entry c target)

  verify_for-HasPayload :
      (catalog : Option CatalogArtifact) (target : String) {r : List (String × Bytes)}
      → p.target_catalog ≡ catalog
      → verify_for read_file sha256 parse p catalog ≡ ok r
      → listed target (trajectory_target_ids p) ≡ true
      → HasPayload target r
  unfolding verify_for verified_target catalog_entry
  verify_for-HasPayload none target {r} n h m =
      let (payload, e, g) =
        get-build (verified_target read_file sha256 parse p) target r (trajectory_target_ids p) h
          m in
      let (a, ea, _, catalogued) = wf.artifacts target m in
      let (b, h1, eb) = split_reading (present (get target p.trajectories)) _ e in
      let same = present-eq-ok (get target p.trajectories) eb in
      let ab : b ≡ a = cc in
      (payload, a, g, ea, rw (← ab) (verified_file_lem b.path b.sha256 h1), catalogued)
  verify_for-HasPayload (some c) target {r} n h m =
      let (payload, h1, e) =
        split_reading (verified_file read_file sha256 parse c.path c.sha256) _ h in
      let (b, eb, g) = get-build (λ _. ok payload) target r (trajectory_target_ids p) h1 m in
      let (a, ea, _, catalogued) = wf.artifacts target m in
      let entry = catalogued c n in
      (
        payload,
        a,
        g ∙ ap some (ok-eq (sym eb)),
        ea,
        rw entry (verified_file_lem c.path c.sha256 e),
        catalogued,
      )

  -- A template with what it is read from: bytes of the file of its artifact that have the artifact's
  -- digest and are the text of a value.
  abbrev pub Sourced : String → Template → Type 0
  Sourced target t =
      (a : TrajectoryArtifact) × (payload : Bytes) × (v : Json) × (get target p.trajectories
        ≡ some a)
      × Verified a payload
      × (parse payload ≡ some v)
      × Fits a p.validation_status t

  module _ (target : String) (m : listed target (trajectory_target_ids p) ≡ true)
      (payloads : List (String × Bytes)) where
    registry_for-Sourced :
        (catalog : Option CatalogArtifact) {r : List (String × Template)}
        → p.target_catalog ≡ catalog
        → ((k : String) → listed k (trajectory_target_ids p) ≡ true → HasPayload k payloads)
        → registry_for read_file sha256 parse p payloads catalog ≡ ok r
        → (t : Template) × (get target r ≡ some t) × Sourced target t
    unfolding registry_for read_template
    registry_for-Sourced none {r} n hp h =
        let (t, e, g) =
          get-build (read_template read_file sha256 parse p payloads) target r
            (trajectory_target_ids p) h m in
        let (payload, h1, e1) = split_reading (present (get target payloads)) _ e in
        let (v, h2, e2) = split_reading (parsed read_file sha256 parse payload) _ h1 in
        let (b, h3, e3) = split_reading (present (get target p.trajectories)) _ h2 in
        let (bytes, a, g1, g2, verified, _) = hp target m in
        let p1 = present-eq-ok (get target payloads) e1 in
        let p2 = present-eq-ok (get target p.trajectories) e3 in
        let same : bytes ≡ payload = cc in
        let ab : a ≡ b = cc in
        let moved =
          subst (λ (x : TrajectoryArtifact). Verified x payload) ab
            (subst (λ (y : Bytes). Verified a y) same verified) in
        (
          t,
          g,
          (
            b,
            payload,
            v,
            p2,
            moved,
            readable-eq-ok (parse payload) e2,
            template-Fits b p.validation_status v h3,
          ),
        )
    registry_for-Sourced (some c) {r} n hp h =
        let targets = trajectory_target_ids p in
        let (head, h0, e0) = split_reading (present (head_of targets)) _ h in
        let (payload, h1, e1) = split_reading (present (get head payloads)) _ h0 in
        let (v, h2, e2) = split_reading (parsed read_file sha256 parse payload) _ h1 in
        let hm = head_listed targets (present-eq-ok (head_of targets) e0) in
        let (bytes, b, g1, g2, verified, cat) = hp head hm in
        let p1 = present-eq-ok (get head payloads) e1 in
        let same : bytes ≡ payload = cc in
        let (t, g, fits) = catalog_registry-Fits p c v target h2 m in
        let (a, ea, _, catalogued) = wf.artifacts target m in
        let entry = catalogued c n in
        let moved =
          subst (λ (x : TrajectoryArtifact). Verified x payload) (cat c n)
            (subst (λ (y : Bytes). Verified b y) same verified) in
        (
          t,
          g,
          (
            a,
            payload,
            v,
            ea,
            rw entry (unfold catalog_entry in moved),
            readable-eq-ok (parse payload) e2,
            subst (λ (x : TrajectoryArtifact). Fits x p.validation_status t) (sym entry) fits,
          ),
        )

-- Every target of a registry that is loaded has a template, read from bytes of the file that the
-- plan names for the target and with the digest that the plan gives, or from the plan's catalog; it
-- has the plan's status, the phase of the target and the artifact's identifier. Files, digests and
-- the reading of JSON are arbitrary.
pub load_registry_verified :
    {Bytes : Type 0} (read_file : String → Outcome Bytes) (sha256 : Bytes → String)
    (parse : Bytes → Option Json) (p : Plan) (allow_candidate : Bool) (r : List (String × Template))
    (target : String) (wf : IsPlan p)
    → load_registry read_file sha256 parse allow_candidate p ≡ ok r
    → listed target (trajectory_target_ids p) ≡ true
    → (t : Template) × (get target r ≡ some t)
      × (t.phase ≡ phase_of target)
      × Sourced read_file sha256 parse p wf target t
unfolding load_registry verify_artifacts
load_registry_verified read_file sha256 parse p allow_candidate r target wf h m =
    let (_, h1) =
      test-passed (not (is_candidate p.validation_status && not allow_candidate)) _ _ h in
    let (payloads, h2, e) =
      split_reading (verify_for read_file sha256 parse p p.target_catalog) _ h1 in
    let (t, g, s) =
      registry_for-Sourced read_file sha256 parse p wf target m payloads p.target_catalog refl
        (λ k km. verify_for-HasPayload read_file sha256 parse p wf p.target_catalog k refl e km)
        h2 in
    let (a, payload, v, ea, verified, q, fits) = s in
    let (b, eb, phase, _) = wf.artifacts target m in
    let same : a ≡ b = cc in
    (t, g, fits.1 ∙ ap (λ (x : TrajectoryArtifact). x.phase) same ∙ phase, s)
