-- ===== src/FixedCycle/Machine/Results/Keeps.antt =====
-- What the calls of `ResidentFixedCycle` in edge_runtime/resident_fixed_cycle.py keep, and how many
-- results a mission still needs.
use excavator_orin_runtime.Prelude.{
  ℕ, ◌+◌, ◌-◌, ◌*◌, ◌≤◌, ◌<◌, ◌≡◌, refl, sym, ◌∙◌, String, true, false, Option, some, arith,
  Bool-cases, inl, inr, ◌⊎◌, if◌then◌else◌,
}
use excavator_orin_runtime.Prelude.Fault.{Outcome, raised, runtime_error, cycle_inactive}
use excavator_orin_runtime.FixedCycle.Plan.{MissionProfile, regime_factorized, act_full_cycle}
use excavator_orin_runtime.FixedCycle.Machine.{
  Stage, idle, follow_dig, act_dig, act_whole_cycle, follow_dump, execute_dump, completed, failed,
  cancelled, Directive, Snapshot, Cycle, is_active, get_elem?, failed_by, cancelled_by,
}
use excavator_orin_runtime.FixedCycle.Machine.Results.{
  act_stage, ChildResult, record_child_result, completed_with,
}
use excavator_orin_runtime.FixedCycle.Machine.Results.Invariant.{
  StageOf, Counts, IsRunning, IsCycle, is_over,
}
use excavator_orin_runtime.FixedCycle.Machine.Results.Step.{
  Leads, fails, cancels, completes, acts, dumps, executes, returns, next_cycle, next_index,
  at_stage, record_child_result-Leads,
}

not_terminal : (c : Cycle) → is_active c ≡ true → c.snapshot.terminal ≡ false
not_terminal c a = ground arith

-- A stage of the mission that is under way, and what makes it one.
at_stage-IsRunning :
    (c : Cycle) (s : Stage)
    → IsRunning c
    → StageOf c.plan.mission_profile s
    → Counts s c.snapshot.completed_cycles c.snapshot.requested_cycles
    → IsRunning (at_stage s c)
at_stage-IsRunning c s w st n = record {
  group = w.group;
  point = w.point;
  profile = w.profile;
  stage_of = st;
  counts = n;
  some_cycle = w.some_cycle;
}

next_cycle-IsRunning :
    (c : Cycle) (target : String)
    → IsRunning c
    → get_elem? c.active_dig_sequence (next_index c) ≡ some target
    → c.snapshot.completed_cycles < c.snapshot.requested_cycles
    → IsRunning (next_cycle c target)
next_cycle-IsRunning c target w e n = record {
  group = w.group;
  point = e;
  profile = w.profile;
  stage_of = tt;
  counts = omega arith;
  some_cycle = w.some_cycle;
}

running-IsCycle :
    (c : Cycle) (c' : Cycle)
    → IsCycle c
    → c'.plan ≡ c.plan
    → c'.snapshot.requested_cycles ≡ c.snapshot.requested_cycles
    → c'.snapshot.terminal ≡ false
    → is_over c'.snapshot.stage ≡ false
    → c'.snapshot.completed_cycles ≤ c'.snapshot.requested_cycles
    → IsRunning c'
    → IsCycle c'
running-IsCycle c c' v p q t o n w = record {
  plan = rw p v.plan;
  running = λ _. w;
  over = t ∙ sym o;
  within = n;
  at_most_nine = rw q v.at_most_nine;
  succeeded = λ e. absurd (let z = rw e at o in cc);
}

pub ended-IsCycle :
    (c : Cycle) (s : Snapshot)
    → IsCycle c
    → s.terminal ≡ true
    → is_over s.stage ≡ true
    → s.completed_cycles ≡ c.snapshot.completed_cycles
    → s.requested_cycles ≡ c.snapshot.requested_cycles
    → (s.stage ≡ completed → c.snapshot.completed_cycles ≡ c.snapshot.requested_cycles)
    → IsCycle (record c { snapshot = s })
ended-IsCycle c s v t o p q h = record {
  plan = v.plan;
  running = λ a. absurd (ground arith);
  over = t ∙ sym o;
  within = ground arith;
  at_most_nine = ground arith;
  succeeded = λ e. ground (arith, h e);
}

-- An active result leads to a mission that is under way, or to the end.
abbrev Next : Cycle → Cycle → Type 0
Next c c' = (is_active c' ≡ false) ⊎ ((is_active c' ≡ true) × IsRunning c')

act_stage-StageOf : (m : MissionProfile) → StageOf m (act_stage m)
act_stage-StageOf regime_factorized = refl
act_stage-StageOf act_full_cycle = refl

act_stage-Counts : (m : MissionProfile) (d n : ℕ) → d < n → Counts (act_stage m) d n
act_stage-Counts regime_factorized d n h = h
act_stage-Counts act_full_cycle d n h = h

act_stage_runs : (m : MissionProfile) → is_over (act_stage m) ≡ false
act_stage_runs regime_factorized = refl
act_stage_runs act_full_cycle = refl

-- The cycle that is open past the Follow to the dig point.
open_cycle :
    (c : Cycle) {s : Stage}
    → IsRunning c
    → c.snapshot.stage ≡ s
    → Counts s c.snapshot.completed_cycles c.snapshot.requested_cycles
open_cycle c w e = rw e at w.counts

of_stage :
    (c : Cycle) {s : Stage} → IsRunning c → c.snapshot.stage ≡ s → StageOf c.plan.mission_profile s
of_stage c w e = rw e at w.stage_of

closes :
    (c : Cycle)
    → IsRunning c
    → (c.snapshot.stage ≡ execute_dump) ⊎ (c.snapshot.stage ≡ act_whole_cycle)
    → c.snapshot.completed_cycles < c.snapshot.requested_cycles
closes c w (inl e) = open_cycle c w e
closes c w (inr e) = open_cycle c w e

module _ (c : Cycle) (v : IsCycle c) (a : is_active c ≡ true) where
  Leads-IsCycle : {x : Outcome (Option Directive) × Cycle} → Leads c x → IsCycle x.1
  Leads-IsCycle (fails reason) =
      ended-IsCycle c (failed_by reason c.snapshot) v refl refl refl refl
        (λ e. absurd (ground arith))
  Leads-IsCycle (cancels reason) =
      ended-IsCycle c (cancelled_by reason c.snapshot) v refl refl refl refl
        (λ e. absurd (ground arith))
  Leads-IsCycle (completes s e) =
      ended-IsCycle c (completed_with c.snapshot) v refl refl refl refl (λ _. e)
  Leads-IsCycle (acts d s n) =
      let m = c.plan.mission_profile in
      running-IsCycle c (at_stage (act_stage m) c) v refl refl (not_terminal c a) (act_stage_runs m)
        v.within
        (at_stage-IsRunning c (act_stage m) (v.running a) (act_stage-StageOf m)
          (act_stage-Counts m c.snapshot.completed_cycles c.snapshot.requested_cycles n))
  Leads-IsCycle (dumps t s) =
      running-IsCycle c (at_stage follow_dump c) v refl refl (not_terminal c a) refl v.within (
        at_stage-IsRunning c follow_dump (v.running a) (of_stage c (v.running a) s)
          (open_cycle c (v.running a) s))
  Leads-IsCycle (executes d s) =
      running-IsCycle c (at_stage execute_dump c) v refl refl (not_terminal c a) refl v.within (
        at_stage-IsRunning c execute_dump (v.running a) (of_stage c (v.running a) s)
          (open_cycle c (v.running a) s))
  Leads-IsCycle (returns target t s e) =
      let n = closes c (v.running a) s in
      running-IsCycle c (next_cycle c target) v refl refl (not_terminal c a) refl (omega arith)
        (next_cycle-IsRunning c target (v.running a) e n)

-- Results that one cycle takes.
abbrev pub results_of : MissionProfile → ℕ
results_of regime_factorized = 4
results_of act_full_cycle = 2

-- Results that a mission takes from a stage on, with k cycles to complete.
abbrev pub left_at : MissionProfile → Stage → ℕ → ℕ
left_at m follow_dig k = k * results_of m + 1
left_at m act_dig k = k * 4
left_at m follow_dump k = k * 4 - 1
left_at m execute_dump k = k * 4 - 2
left_at m act_whole_cycle k = k * 2
left_at m _ k = 0

unfoldable pub results_left : Cycle → ℕ
results_left c =
    let left =
      left_at c.plan.mission_profile c.snapshot.stage
        (c.snapshot.requested_cycles - c.snapshot.completed_cycles) in
    if is_active c then left else 0

-- A result takes one of the results that are left, or it ends the mission: with success only if
-- it was the last one.
abbrev pub Takes : Cycle → Cycle → Type 0
Takes c c' =
    ((is_active c' ≡ true) × (results_left c' + 1 ≡ results_left c))
    ⊎ ((is_active c' ≡ false) × (c'.snapshot.stage ≡ completed → results_left c ≡ 1))

module _ (c : Cycle) (w : IsRunning c) (a : is_active c ≡ true) where
  returns-Takes :
      (target : String)
      → (m : MissionProfile) → m ≡ c.plan.mission_profile
      → (c.snapshot.stage ≡ execute_dump) ⊎ (c.snapshot.stage ≡ act_whole_cycle)
      → results_left (next_cycle c target) + 1 ≡ results_left c
  unfolding results_left
  returns-Takes target m q (inl s) =
      let n = open_cycle c w s in let p = of_stage c w s in ground arith
  returns-Takes target m q (inr s) =
      let n = open_cycle c w s in let p = of_stage c w s in ground arith

  acts-Takes :
      (m : MissionProfile)
      → m ≡ c.plan.mission_profile
      → c.snapshot.stage ≡ follow_dig
      → c.snapshot.completed_cycles < c.snapshot.requested_cycles
      → Takes c (at_stage (act_stage c.plan.mission_profile) c)
  unfolding results_left
  acts-Takes regime_factorized q s n = rw (← q) (inl (ground arith, ground arith))
  acts-Takes act_full_cycle q s n = rw (← q) (inl (ground arith, ground arith))

  Leads-Takes : {x : Outcome (Option Directive) × Cycle} → Leads c x → Takes c x.1
  unfolding results_left
  Leads-Takes (fails reason) = inr (ground arith, λ e. absurd (ground arith))
  Leads-Takes (cancels reason) = inr (ground arith, λ e. absurd (ground arith))
  Leads-Takes (completes s e) = inr (ground arith, λ _. ground arith)
  Leads-Takes (acts d s n) = acts-Takes c.plan.mission_profile refl s n
  Leads-Takes (dumps t s) = let n = open_cycle c w s in inl (ground arith, ground arith)
  Leads-Takes (executes d s) = let n = open_cycle c w s in inl (ground arith, ground arith)
  Leads-Takes (returns target t s e) =
      inl (ground arith, returns-Takes target c.plan.mission_profile refl s)

pub refused :
    (c : Cycle) (r : ChildResult)
    → is_active c ≡ false
    → record_child_result r c ≡ (raised (runtime_error cycle_inactive), c)
unfolding record_child_result
refused c r a = ground arith

pub record_child_result-IsCycle :
    (c : Cycle) (r : ChildResult) → IsCycle c → IsCycle (record_child_result r c).1
record_child_result-IsCycle c r v = elim (Bool-cases (is_active c)) [
  | inl a ↦ Leads-IsCycle c v a (record_child_result-Leads c v (v.running a) r a)
  | inr a ↦ rw (refused c r a) v
]

pub record_child_result-Takes :
    (c : Cycle) (r : ChildResult)
    → IsCycle c
    → is_active c ≡ true
    → Takes c (record_child_result r c).1
record_child_result-Takes c r v a =
    Leads-Takes c (v.running a) a (record_child_result-Leads c v (v.running a) r a)

left_at_pos :
    (m : MissionProfile) (s : Stage) (d n : ℕ)
    → StageOf m s
    → Counts s d n
    → 1 ≤ left_at m s (n - d)
left_at_pos m follow_dig d n st h = omega arith
left_at_pos m act_dig d n st h = omega arith
left_at_pos m act_whole_cycle d n st h = omega arith
left_at_pos m follow_dump d n st h = omega arith
left_at_pos m execute_dump d n st h = omega arith
left_at_pos m idle d n st h = absurd st
left_at_pos m completed d n st h = absurd st
left_at_pos m failed d n st h = absurd st
left_at_pos m cancelled d n st h = absurd st

-- A mission under way still takes a result.
pub results_left_pos : (c : Cycle) → IsRunning c → is_active c ≡ true → 1 ≤ results_left c
unfolding results_left
results_left_pos c w a = rw a (
    left_at_pos c.plan.mission_profile c.snapshot.stage c.snapshot.completed_cycles
      c.snapshot.requested_cycles w.stage_of w.counts)
