-- ===== src/FixedCycle/Machine/Results/History.antt =====
-- Missions of `ResidentFixedCycle` in edge_runtime/resident_fixed_cycle.py as sequences of calls.
use excavator_orin_runtime.Prelude.{
  ℕ, suc, ◌+◌, ◌*◌, ◌≤◌, ◌≡◌, refl, sym, ◌∙◌, String, Bool, true, false, Option, List, [], ◌∷◌,
  arith, length, Bool-cases, inl, inr, if◌then◌else◌,
}
use excavator_orin_runtime.Prelude.Fault.{Outcome, ok, Outcome-cases}
use excavator_orin_runtime.Json.{Json}
use excavator_orin_runtime.FixedCycle.Values.{identifier}
use excavator_orin_runtime.FixedCycle.Plan.{Plan, MissionProfile, regime_factorized, act_full_cycle}
use excavator_orin_runtime.FixedCycle.Plan.Mapping.Facts.{IsPlan, from_mapping-IsPlan}
use excavator_orin_runtime.FixedCycle.Plan.Mapping.{from_mapping}
use excavator_orin_runtime.FixedCycle.Machine.{
  completed, Directive, Cycle, new_cycle, is_active, start, cancel, fail, cancelled_by, failed_by,
}
use excavator_orin_runtime.FixedCycle.Machine.Results.{ChildResult, record_child_result}
use excavator_orin_runtime.FixedCycle.Machine.Results.Invariant.{IsCycle}
use excavator_orin_runtime.FixedCycle.Machine.Results.Keeps.{
  results_left, results_of, record_child_result-IsCycle, record_child_result-Takes, ended-IsCycle,
  refused, results_left_pos,
}
use excavator_orin_runtime.FixedCycle.Machine.Results.Start.{
  start-IsCycle, start-Starts, Starts-Begins, Begins, new_cycle-IsCycle,
}

-- The public calls.
pub data Call : Type 0 where
  starts : String → Json → Option String → Option String → Call
  records : ChildResult → Call
  cancels : String → Call
  fails : String → Call

unfoldable pub step : Call → Cycle → Cycle
step (starts run_id requested first group_id) c = (start run_id requested first group_id c).1
step (records r) c = (record_child_result r c).1
step (cancels reason) c = (cancel reason c).1
step (fails reason) c = (fail reason c).1

unfoldable pub run : List Call → Cycle → Cycle
run [] c = c
run (x ∷ xs) c = run xs (step x c)

cancel-IsCycle : (reason : String) (c : Cycle) → IsCycle c → IsCycle (cancel reason c).1
unfolding cancel
cancel-IsCycle reason c v = elim (Bool-cases (is_active c)) [
  | inl a ↦ rw a (
      ended-IsCycle c (cancelled_by reason c.snapshot) v refl refl refl refl
        (λ e. absurd (ground arith)))
  | inr a ↦ rw a v
]

fail-IsCycle : (reason : String) (c : Cycle) → IsCycle c → IsCycle (fail reason c).1
unfolding fail
fail-IsCycle reason c v = elim (Bool-cases (is_active c)) [
  | inr a ↦ rw a v
  | inl a ↦ rw a (elim (Outcome-cases (identifier reason)) [
    | inr (e, p) ↦ rw p v
    | inl (id, p) ↦ rw p (
        ended-IsCycle c (failed_by id c.snapshot) v refl refl refl refl
          (λ e. absurd (ground arith)))
  ])
]

step-IsCycle : (x : Call) (c : Cycle) → IsCycle c → IsCycle (step x c)
unfolding step
step-IsCycle (starts run_id requested first group_id) c v =
    start-IsCycle run_id requested first group_id c v
step-IsCycle (records r) c v = record_child_result-IsCycle c r v
step-IsCycle (cancels reason) c v = cancel-IsCycle reason c v
step-IsCycle (fails reason) c v = fail-IsCycle reason c v

run_keeps : (xs : List Call) (c : Cycle) → IsCycle c → IsCycle (run xs c)
unfolding run
run_keeps [] c v = v
run_keeps (x ∷ xs) c v = run_keeps xs (step x c) (step-IsCycle x c v)

-- After any calls on the state machine of a plan that was read, the mission's state is
-- well-formed: the completed cycles do not exceed the requested ones, which are at most nine; a
-- success has completed them all; the terminal flag is set in exactly the three final stages; and
-- a mission under way works at a point of a group of the plan, in a stage of its profile.
pub run-IsCycle :
    (allow_candidate : Bool) (v : Json) (p : Plan) (xs : List Call)
    → from_mapping allow_candidate v ≡ ok p
    → IsCycle (run xs (new_cycle p))
run-IsCycle allow_candidate v p xs h =
    run_keeps xs (new_cycle p) (new_cycle-IsCycle p (from_mapping-IsPlan allow_candidate v h))

unfoldable pub record_all : List ChildResult → Cycle → Cycle
record_all [] c = c
record_all (r ∷ rs) c = record_all rs (record_child_result r c).1

-- The results that are recorded before the mission is over.
unfoldable pub accepted : List ChildResult → Cycle → ℕ
accepted [] c = 0
accepted (r ∷ rs) c =
    let rest = accepted rs (record_child_result r c).1 in if is_active c then suc rest else 0

over_stays : (rs : List ChildResult) (c : Cycle) → is_active c ≡ false → record_all rs c ≡ c
unfolding record_all
over_stays [] c a = refl
over_stays (r ∷ rs) c a = rw (refused c r a) (over_stays rs c a)

over_accepts : (rs : List ChildResult) (c : Cycle) → is_active c ≡ false → accepted rs c ≡ 0
unfolding accepted
over_accepts [] c a = refl
over_accepts (r ∷ rs) c a = ground arith

ends_after :
    (rs : List ChildResult) (c : Cycle)
    → IsCycle c
    → results_left c ≤ length rs
    → is_active (record_all rs c) ≡ false
unfolding record_all
ends_after [] c v h = elim (Bool-cases (is_active c)) [
  | inr a ↦ a
  | inl a ↦ let pos = results_left_pos c (v.running a) a in absurd (omega arith)
]
ends_after (r ∷ rs) c v h = elim (Bool-cases (is_active c)) [
  | inr a ↦ rw (over_stays (r ∷ rs) c a) a
  | inl a ↦ elim (record_child_result-Takes c r v a) [
    | inl (b, e) ↦
        ends_after rs (record_child_result r c).1 (record_child_result-IsCycle c r v) (omega arith)
    | inr (b, e) ↦ rw (over_stays rs (record_child_result r c).1 b) b
  ]
]

success_takes :
    (rs : List ChildResult) (c : Cycle)
    → IsCycle c
    → is_active c ≡ true
    → (record_all rs c).snapshot.stage ≡ completed
    → accepted rs c ≡ results_left c
unfolding record_all accepted
success_takes [] c v a h = absurd (let o = rw h at v.over in ground arith)
success_takes (r ∷ rs) c v a h = elim (record_child_result-Takes c r v a) [
  | inl (b, e) ↦
      let ih =
        success_takes rs (record_child_result r c).1 (record_child_result-IsCycle c r v) b h in
      rw a (omega arith)
  | inr (b, e) ↦
      let last = e (rw (over_stays rs (record_child_result r c).1 b) at h) in
      rw (a, over_accepts rs (record_child_result r c).1 b) (sym last)
]

cycles_bound : (m : MissionProfile) (n : ℕ) → n ≤ 9 → n * results_of m + 1 ≤ 37
cycles_bound regime_factorized n h = omega arith
cycles_bound act_full_cycle n h = omega arith

-- A start of a mission after other calls: what it comes to, and the mission.
abbrev pub StartCall : Type 0
StartCall = String × Json × Option String × Option String

abbrev pub start_after : Plan → List Call → StartCall → Outcome Directive × Cycle
start_after p xs (run_id, requested, first, group_id) =
    start run_id requested first group_id (run xs (new_cycle p))

abbrev pub results_needed : Cycle → ℕ
results_needed c = c.snapshot.requested_cycles * results_of c.plan.mission_profile + 1

begins :
    (p : Plan) (xs : List Call) (s : StartCall) (d : Directive)
    → IsPlan p
    → (start_after p xs s).0 ≡ ok d
    → Begins (start_after p xs s) × IsCycle (start_after p xs s).1
begins p xs (run_id, requested, first, group_id) d wf h =
    let c = run xs (new_cycle p) in
    let v = run_keeps xs (new_cycle p) (new_cycle-IsCycle p wf) in
    (
      Starts-Begins c (start-Starts c v.plan run_id requested first group_id) h,
      start-IsCycle run_id requested first group_id c v,
    )

-- Whatever the children report, a mission of n cycles that starts is over after n * 4 + 1 results,
-- or n * 2 + 1 where ACT runs whole cycles, which is at most 37; no result after that changes it.
pub mission_ends :
    (p : Plan) (xs : List Call) (s : StartCall) (d : Directive) (rs more : List ChildResult)
    → IsPlan p
    → (start_after p xs s).0 ≡ ok d
    → results_needed (start_after p xs s).1 ≤ length rs
    → (results_needed (start_after p xs s).1 ≤ 37)
      × (is_active (record_all rs (start_after p xs s).1) ≡ false)
      × (record_all more (record_all rs (start_after p xs s).1)
          ≡ record_all rs (start_after p xs s).1)
mission_ends p xs s d rs more wf h enough =
    let c = (start_after p xs s).1 in
    let ((_, left, nine), v) = begins p xs s d wf h in
    let over = ends_after rs c v (omega arith) in
    (
      cycles_bound c.plan.mission_profile c.snapshot.requested_cycles nine,
      over,
      over_stays more (record_all rs c) over,
    )

-- A mission of n cycles that ends with success has accepted exactly n * 4 + 1 results, or n * 2 + 1
-- where ACT runs whole cycles.
pub success_takes_all :
    (p : Plan) (xs : List Call) (s : StartCall) (d : Directive) (rs : List ChildResult)
    → IsPlan p
    → (start_after p xs s).0 ≡ ok d
    → (record_all rs (start_after p xs s).1).snapshot.stage ≡ completed
    → accepted rs (start_after p xs s).1 ≡ results_needed (start_after p xs s).1
success_takes_all p xs s d rs wf h e =
    let ((active, left, _), v) = begins p xs s d wf h in
    success_takes rs (start_after p xs s).1 v active e ∙ left
