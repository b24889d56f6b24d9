-- ===== src/FixedCycle/Machine/Results/Start.antt =====
-- `start`, `cancel` and `fail` of `ResidentFixedCycle` in edge_runtime/resident_fixed_cycle.py.
use excavator_orin_runtime.Prelude.{
  ℕ, ◌+◌, ◌*◌, ◌≤◌, ◌≡◌, refl, String, true, false, Option, some, List, arith, Bool-cases,
  Option-cases, inl, inr, ◌⊎◌,
}
use excavator_orin_runtime.Prelude.Fault.{
  Error, Outcome, ok, raised, Outcome-cases, index_error, missing_index,
}
use excavator_orin_runtime.Json.{Json, listed}
use excavator_orin_runtime.FixedCycle.Values.{read_integer, read_integer_bounds, identifier}
use excavator_orin_runtime.FixedCycle.Dict.{get}
use excavator_orin_runtime.FixedCycle.Plan.{Plan, TrajectoryArtifact}
use excavator_orin_runtime.FixedCycle.Plan.Mapping.Facts.{IsPlan}
use excavator_orin_runtime.FixedCycle.Machine.{
  follow_dig, Directive, Cycle, new_cycle, is_active, get_elem?, index_of, given_or, truthy,
  given_point, first_point, started, follow_to, follow_directive, put_snapshot, start,
  max_requested_cycles,
}
use excavator_orin_runtime.FixedCycle.Machine.Results.Points.{get_elem?-index_of, point-HasArtifact}
use excavator_orin_runtime.FixedCycle.Machine.Results.Invariant.{IsCycle}
use excavator_orin_runtime.FixedCycle.Machine.Results.Keeps.{results_left, results_of}

-- What `start` comes to: a refusal, which may leave other points chosen where no mission is under
-- way, or the mission at its first point.
pub data Starts (c : Cycle) : Outcome Directive × Cycle → Type 0 where
  refused : (e : Error) → Starts c (raised e, c)
  refused_late :
      (e : Error) (points : List String) (i : ℕ)
      → is_active c ≡ false
      → Starts c (raised e, record c { active_dig_sequence = points; dig_sequence_index = i })
  begun :
      (run_id : String) (n : ℕ) (first group_id : String) (points : List String)
      (a : TrajectoryArtifact)
      → 1 ≤ n
      → n ≤ max_requested_cycles
      → get group_id c.plan.dig_groups ≡ some points
      → listed first points ≡ true
      → Starts c (
        ok (follow_to first follow_dig a),
        record c {
          active_dig_sequence = points;
          dig_sequence_index = index_of first points;
          snapshot = started c.plan run_id n first group_id;
        },
      )

abbrev choosing : List String → Cycle → Cycle
choosing points c = record c { active_dig_sequence = points }

first_point_lem :
    (given : Option String) (points : List String) (c : Cycle)
    → ((k : String) × (first_point given (choosing points c) ≡ (ok k, choosing points c)))
      ⊎ (first_point given (choosing points c)
          ≡ (raised (index_error missing_index), choosing points c))
unfolding first_point given_point
first_point_lem given points c = elim (Option-cases (truthy given)) [
  | inr (k, e) ↦ rw e (inl (k, refl))
  | inl e ↦ rw e (elim (Option-cases (get_elem? points 0)) [
    | inr (k, p) ↦ rw p (inl (k, refl))
    | inl p ↦ rw p (inr refl)
  ])
]

module _ (c : Cycle) (wf : IsPlan c.plan) (run_id : String) (requested : Json)
    (first_dig_point_id dig_group_id : Option String) where
  pub start-Starts : Starts c (start run_id requested first_dig_point_id dig_group_id c)
  unfolding start put_snapshot follow_directive
  start-Starts =
      let group_id = given_or dig_group_id c.plan.default_dig_group in
      elim (Bool-cases (is_active c)) [
        | inl a ↦ rw a (refused _)
        | inr a ↦ rw a (elim (Outcome-cases (read_integer 1 max_requested_cycles requested)) [
          | inr (e, p) ↦ rw p (refused e)
          | inl (n, p) ↦ rw p (elim (Option-cases (get group_id c.plan.dig_groups)) [
            | inl q ↦ rw q (refused _)
            | inr (points, q) ↦ rw q (elim (first_point_lem first_dig_point_id points c) [
              | inr f ↦ rw f (refused_late _ points c.dig_sequence_index a)
              | inl (first, f) ↦ rw f (elim (Bool-cases (listed first points)) [
                | inr m ↦ rw m (refused_late _ points c.dig_sequence_index a)
                | inl m ↦ rw m (elim (Outcome-cases (identifier run_id)) [
                  | inr (e, i) ↦ rw i (refused_late e points (index_of first points) a)
                  | inl (id, i) ↦
                      let (low, high) = read_integer_bounds 1 max_requested_cycles requested p in
                      let (t, h) = point-HasArtifact c.plan wf group_id first points q m in
                      rw (i, h) (begun id n first group_id points t low high q m)
                ])
              ])
            ])
          ])
        ])
      ]

Starts-IsCycle : (c : Cycle) {x : Outcome Directive × Cycle} → Starts c x → IsCycle c → IsCycle x.1
Starts-IsCycle c (refused e) v = v
Starts-IsCycle c (refused_late e points i a) v = record {
  plan = v.plan;
  running = λ b. absurd (ground arith);
  over = v.over;
  within = v.within;
  at_most_nine = v.at_most_nine;
  succeeded = v.succeeded;
}
Starts-IsCycle c (begun run_id n first group_id points a low high q m) v = record {
  plan = v.plan;
  running = λ _. record {
    group = q;
    point = get_elem?-index_of first points m;
    profile = refl;
    stage_of = tt;
    counts = omega arith;
    some_cycle = low;
  };
  over = refl;
  within = omega arith;
  at_most_nine = high;
  succeeded = λ e. absurd (ground arith);
}

pub start-IsCycle :
    (run_id : String) (requested : Json) (first_dig_point_id dig_group_id : Option String)
    (c : Cycle)
    → IsCycle c
    → IsCycle (start run_id requested first_dig_point_id dig_group_id c).1
start-IsCycle run_id requested first_dig_point_id dig_group_id c v =
    Starts-IsCycle c (start-Starts c v.plan run_id requested first_dig_point_id dig_group_id) v

pub new_cycle-IsCycle : (p : Plan) → IsPlan p → IsCycle (new_cycle p)
unfolding new_cycle
new_cycle-IsCycle p wf = record {
  plan = wf;
  running = λ a. absurd (ground arith);
  over = refl;
  within = omega arith;
  at_most_nine = omega arith;
  succeeded = λ e. absurd (ground arith);
}

-- A mission that starts needs the results of all its cycles and one more.
abbrev pub Begins : Outcome Directive × Cycle → Type 0
Begins x =
    (is_active x.1 ≡ true)
    × (results_left x.1 ≡ x.1.snapshot.requested_cycles * results_of x.1.plan.mission_profile + 1)
    × (x.1.snapshot.requested_cycles ≤ max_requested_cycles)

pub Starts-Begins :
    (c : Cycle) {x : Outcome Directive × Cycle} {d : Directive} → Starts c x → x.0 ≡ ok d → Begins x
unfolding results_left
Starts-Begins c (refused e) h = absurd (ground arith)
Starts-Begins c (refused_late e points i a) h = absurd (ground arith)
Starts-Begins c (begun run_id n first group_id points a low high q m) h = (refl, ground arith, high)
