-- ===== src/FixedCycle/Plan/Mapping/PointGroups.antt =====
-- The groups of dig points that a plan of edge_runtime/resident_fixed_cycle.py holds.
use mathlib.Core.Path.{subst}
use excavator_orin_runtime.Prelude.{
  ◌<◌, ◌≡◌, refl, String, true, not, Option, none, some, List, [], ◌∷◌, str_eq, str_eq_refl,
  str_eq_iff, sym, ◌∙◌, is_some, length, arith, Bool-cases, inl, inr,
}
use excavator_orin_runtime.Prelude.Fault.{ok}
use excavator_orin_runtime.Json.{
  Json, null, truth, int, real, text, array, object, Items, nil, cons, Members, listed,
}
use excavator_orin_runtime.Protocol.{◌>>=◌}
use excavator_orin_runtime.FixedCycle.Values.{read_identifier, identifier}
use excavator_orin_runtime.FixedCycle.Dict.{
  get, put, entries, distinct, subset, texts_eq→eq, get-put_same, get-put_other,
}
use excavator_orin_runtime.FixedCycle.Ensures.{split_reading, test-passed}
use excavator_orin_runtime.FixedCycle.Plan.{
  Schema, legacy, profiled, grouped, cataloged, Groups, at_key, read_identifiers, read_point_ids,
  read_group, read_groups, dig_groups, groups_of, grouped_points, is_exactly, no_members,
}

-- Every group holds at least one point, and only points of the sequence.
abbrev pub GroupsOf : List String → List (String × List String) → Type 0
GroupsOf sequence groups =
    (g : String) (ids : List String)
    → get g groups ≡ some ids
    → (0 < length ids) × (subset ids sequence ≡ true)

subset_refl_from :
    (xs ys : List String)
    → ((k : String) → listed k xs ≡ true → listed k ys ≡ true)
    → subset xs ys ≡ true
unfolding subset
subset_refl_from [] ys h = refl
subset_refl_from (x ∷ xs) ys h =
    ground (arith, h x, str_eq_refl x, subset_refl_from xs ys (λ k m. ground (arith, h k)))

subset_refl : (xs : List String) → subset xs xs ≡ true
subset_refl xs = subset_refl_from xs xs (λ k m. m)

-- Identifiers of a non-empty list: at least one, all distinct.
abbrev pub PointIds : List String → Type 0
PointIds ids = (0 < length ids) × (distinct ids ≡ true)

read_identifiers-cons :
    (v : Json) (is : Items) {ids : List String}
    → read_identifiers (cons v is) ≡ ok ids
    → 0 < length ids
unfolding read_identifiers
read_identifiers-cons v is h =
    let (k, h1, _) = split_reading (read_identifier v) _ h in
    let (ks, h2, _) = split_reading (read_identifiers is) _ h1 in ground arith

pub read_point_ids-PointIds :
    (v : Json) {ids : List String} → read_point_ids v ≡ ok ids → PointIds ids
unfolding read_point_ids
read_point_ids-PointIds (array (cons v is)) h =
    let (ids, h1, e) = split_reading (read_identifiers (cons v is)) _ h in
    let (d, h2) = test-passed (distinct ids) _ (ok ids) h1 in
    let n = read_identifiers-cons v is e in (ground arith, ground arith)
read_point_ids-PointIds (array nil) h = absurd (cc)
read_point_ids-PointIds null h = absurd (cc)
read_point_ids-PointIds (truth b) h = absurd (cc)
read_point_ids-PointIds (int n) h = absurd (cc)
read_point_ids-PointIds (real x) h = absurd (cc)
read_point_ids-PointIds (text s) h = absurd (cc)
read_point_ids-PointIds (object ms) h = absurd (cc)

read_group_lem :
    (sequence : List String) (v : Json) {ids : List String}
    → read_group sequence v ≡ ok ids
    → (0 < length ids) × (subset ids sequence ≡ true)
unfolding read_group
read_group_lem sequence v h =
    let (ids, h1, e) = split_reading (read_point_ids v) _ h in
    let (s, h2) = test-passed (subset ids sequence) _ (ok ids) h1 in
    let (n, _) = read_point_ids-PointIds v e in (ground arith, ground arith)

GroupsOf-put :
    (sequence : List String) (groups : List (String × List String)) (k : String) (ids : List String)
    → GroupsOf sequence groups
    → (0 < length ids) × (subset ids sequence ≡ true)
    → GroupsOf sequence (put k ids groups)
GroupsOf-put sequence groups k ids h n g xs e = elim (Bool-cases (str_eq k g)) [
  | inl same ↦
      let same_key : k ≡ g = (str_eq_iff k g).0 same in
      let found : get g (put k ids groups) ≡ some ids =
        rw (← same_key) (get-put_same k ids groups) in
      ground arith
  | inr other ↦ h g xs (sym (get-put_other g k ids groups other) ∙ e)
]

read_groups-GroupsOf :
    (sequence : List String) (groups : List (String × List String)) (vs : List (String × Json))
    {r : List (String × List String)}
    → GroupsOf sequence groups
    → read_groups sequence groups vs ≡ ok r
    → GroupsOf sequence r
unfolding read_groups
read_groups-GroupsOf sequence groups [] {r} h e = let same : groups ≡ r = cc in rw (← same) h
read_groups-GroupsOf sequence groups ((key, v) ∷ rest) h e =
    let (k, e1, _) = split_reading (identifier key) _ e in
    let (ids, e2, q) = split_reading (read_group sequence v) _ e1 in
    read_groups-GroupsOf sequence (put k ids groups) rest
      (GroupsOf-put sequence groups k ids h (read_group_lem sequence v q)) e2

abbrev pub Grouped : List String → List (String × List String) → Type 0
Grouped sequence groups = GroupsOf sequence groups × (get "all" groups ≡ some sequence)

is_exactly-eq :
    (sequence : List String) (o : Option (List String))
    → is_exactly sequence o ≡ true
    → o ≡ some sequence
is_exactly-eq sequence none h = absurd (cc)
is_exactly-eq sequence (some ids) h = ground (arith, texts_eq→eq ids sequence)

dig_groups-Grouped :
    (v : Json) (sequence : List String) {groups : List (String × List String)}
    → dig_groups v sequence ≡ ok groups
    → Grouped sequence groups
unfolding dig_groups
dig_groups-Grouped (object ms) sequence h =
    let (_, h1) = test-passed (not (no_members ms)) _ _ h in
    let (groups, h2, e) = split_reading (read_groups sequence [] (entries ms)) _ h1 in
    let (t, h3) = test-passed (is_exactly sequence (get "all" groups)) _ (ok groups) h2 in
    let first =
      read_groups-GroupsOf sequence [] (entries ms) (λ g ids q. absurd (unfold get in cc)) e in
    subst (Grouped sequence) (cc) (first, is_exactly-eq sequence (get "all" groups) t)
dig_groups-Grouped null sequence h = absurd (cc)
dig_groups-Grouped (truth b) sequence h = absurd (cc)
dig_groups-Grouped (int n) sequence h = absurd (cc)
dig_groups-Grouped (real x) sequence h = absurd (cc)
dig_groups-Grouped (text s) sequence h = absurd (cc)
dig_groups-Grouped (array is) sequence h = absurd (cc)

abbrev pub WithDefault : List String → Groups → Type 0
WithDefault sequence g = Grouped sequence g.1 × (is_some (get g.0 g.1) ≡ true)

grouped_points-WithDefault :
    (ms : Members) (sequence : List String) {g : Groups}
    → grouped_points ms sequence ≡ ok g
    → WithDefault sequence g
unfolding grouped_points
grouped_points-WithDefault ms sequence h =
    let (default_id, h1, _) =
      split_reading (at_key "default_dig_group" ms >>= read_identifier) _ h in
    let (value, h2, _) = split_reading (at_key "dig_groups" ms) _ h1 in
    let (groups, h3, e) = split_reading (dig_groups value sequence) _ h2 in
    let (t, h4) = test-passed (is_some (get default_id groups)) _ (ok (default_id, groups)) h3 in
    subst (WithDefault sequence) (cc) (dig_groups-Grouped value sequence e, t)

-- The one group of the older schemas.
one_group-WithDefault :
    (sequence : List String)
    → 0 < length sequence
    → WithDefault sequence ("all", ("all", sequence) ∷ [])
unfolding get
one_group-WithDefault sequence n = (
  ((λ g ids e. ground (arith, subset_refl sequence)), ground (arith, str_eq_refl "all")),
  ground (arith, str_eq_refl "all"),
)

pub groups_of-WithDefault :
    (schema : Schema) (ms : Members) (sequence : List String) {g : Groups}
    → 0 < length sequence
    → groups_of schema ms sequence ≡ ok g
    → WithDefault sequence g
unfolding groups_of
groups_of-WithDefault legacy ms sequence n h =
    subst (WithDefault sequence) (cc) (one_group-WithDefault sequence n)
groups_of-WithDefault profiled ms sequence n h =
    subst (WithDefault sequence) (cc) (one_group-WithDefault sequence n)
groups_of-WithDefault grouped ms sequence n h = grouped_points-WithDefault ms sequence h
groups_of-WithDefault cataloged ms sequence n h = grouped_points-WithDefault ms sequence h
