-- ===== src/FixedCycle/Machine/Results/Points.antt =====
-- The dig points of a mission of edge_runtime/resident_fixed_cycle.py: positions in the group, and
-- artifacts of the targets.
use native.Mathlib.Nat.{mod-lt}
use excavator_orin_runtime.Prelude.{
  ℕ, ◌+◌, ◌-◌, ◌%◌, ◌<◌, ◌≡◌, refl, String, Bool, true, false, some, List, [], ◌∷◌, ◌++◌, arith,
  str_eq_refl, str_eq_iff, length, Bool-cases, inl, inr, ◌==◌, if◌then◌else◌,
}
use excavator_orin_runtime.Json.{listed}
use excavator_orin_runtime.FixedCycle.Dict.{get, subset-listed}
use excavator_orin_runtime.FixedCycle.Plan.{
  MissionProfile, regime_factorized, act_full_cycle, Plan, TrajectoryArtifact,
}
use excavator_orin_runtime.FixedCycle.Plan.Mapping.{targets_of}
use excavator_orin_runtime.FixedCycle.Plan.Mapping.Facts.{IsPlan}
use excavator_orin_runtime.FixedCycle.Machine.{get_elem?, index_of}

pub get_elem?-listed :
    (xs : List String) (i : ℕ)
    → i < length xs
    → (x : String) × (get_elem? xs i ≡ some x) × (listed x xs ≡ true)
unfolding get_elem?
get_elem?-listed [] i h = absurd (omega arith)
get_elem?-listed (x ∷ xs) i h = elim (Bool-cases (i == 0)) [
  | inl e ↦ rw e (x, refl, ground (arith, str_eq_refl x))
  | inr e ↦ let (y, p, q) = get_elem?-listed xs (i - 1) (ground arith) in rw e (y, p, ground arith)
]

pub get_elem?-lt : (xs : List String) (i : ℕ) {k : String} → get_elem? xs i ≡ some k → i < length xs
unfolding get_elem?
get_elem?-lt [] i {k = y} h = absurd (cc)
get_elem?-lt (x ∷ xs) i {k = y} h = ground (arith, get_elem?-lt xs (i - 1) {k = y})

pub get_elem?-index_of :
    (k : String) (xs : List String) → listed k xs ≡ true → get_elem? xs (index_of k xs) ≡ some k
unfolding get_elem? index_of
get_elem?-index_of k [] h = absurd (cc)
get_elem?-index_of k (x ∷ xs) h = ground (arith, get_elem?-index_of k xs, str_eq_iff x k)

listed-append_left :
    (k : String) (xs ys : List String) → listed k xs ≡ true → listed k (xs ++ ys) ≡ true
listed-append_left k [] ys h = absurd (cc)
listed-append_left k (x ∷ xs) ys h = ground (arith, listed-append_left k xs ys)

listed-append_last : (k : String) (xs : List String) → listed k (xs ++ k ∷ []) ≡ true
listed-append_last k [] = ground (arith, str_eq_refl k)
listed-append_last k (x ∷ xs) = ground (arith, listed-append_last k xs)

-- A dig point is a target of either profile.
listed-targets_of :
    (m : MissionProfile) (k : String) (sequence : List String)
    → listed k sequence ≡ true
    → listed k (targets_of m sequence) ≡ true
listed-targets_of act_full_cycle k sequence h = h
listed-targets_of regime_factorized k sequence h = listed-append_left k sequence ("dump" ∷ []) h

dump-targets_of :
    (m : MissionProfile) (sequence : List String)
    → m ≡ regime_factorized
    → listed "dump" (targets_of m sequence) ≡ true
dump-targets_of act_full_cycle sequence h = absurd (ground arith)
dump-targets_of regime_factorized sequence h = listed-append_last "dump" sequence

abbrev pub HasArtifact : Plan → String → Type 0
HasArtifact p t = (a : TrajectoryArtifact) × (get t p.trajectories ≡ some a)

module _ (p : Plan) (wf : IsPlan p) where
  -- A point of a group has an artifact.
  pub point-HasArtifact :
      (g k : String) (ids : List String)
      → get g p.dig_groups ≡ some ids
      → listed k ids ≡ true
      → HasArtifact p k
  point-HasArtifact g k ids e m =
      let known = subset-listed k ids p.dig_sequence (wf.groups g ids e).1 m in
      let (a, e, _, _) =
        wf.artifacts k (listed-targets_of p.mission_profile k p.dig_sequence known) in
      (a, e)

  pub dump-HasArtifact : p.mission_profile ≡ regime_factorized → HasArtifact p "dump"
  dump-HasArtifact e =
      let (a, q, _, _) = wf.artifacts "dump" (dump-targets_of p.mission_profile p.dig_sequence e) in
      (a, q)

-- The index of the next point lies in the group.
pub next_index_lt : (goes_on : Bool) (i n : ℕ) → i < n → (if goes_on then (i + 1) % n else i) < n
next_index_lt true i n h = mod-lt (i + 1) (omega arith)
next_index_lt false i n h = h
