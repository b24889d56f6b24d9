-- ===== src/FixedCycle/Machine/Results/Step.antt =====
-- One result of a child of `ResidentFixedCycle` in edge_runtime/resident_fixed_cycle.py.
use excavator_orin_runtime.Prelude.{
  ℕ, ◌+◌, ◌%◌, ◌<◌, ◌≡◌, refl, sym, String, Bool, true, false, Option, none, some, arith, str_eq,
  length, Bool-cases, inl, inr, ltb, ◌==◌, ◌⊎◌, if◌then◌else◌,
}
use excavator_orin_runtime.Prelude.Fault.{Outcome, ok}
use excavator_orin_runtime.Prelude.Proc.{Proc}
use excavator_orin_runtime.Json.{Json}
use excavator_orin_runtime.FixedCycle.Plan.{
  MissionProfile, regime_factorized, act_full_cycle, TrajectoryArtifact,
}
use excavator_orin_runtime.FixedCycle.Machine.{
  Stage, idle, follow_dig, act_dig, act_whole_cycle, follow_dump, execute_dump, completed, failed,
  cancelled, Directive, Cycle, is_active, get_elem?, follow_to, follow_directive, failed_by,
  cancelled_by,
}
use excavator_orin_runtime.FixedCycle.Machine.Results.{
  return_to_dig, after_follow_dig, after_act, act_leads_to, after_follow_dump, after_success,
  completed_with, act_stage, act_is_done, text_or, fail_with, some_directive, ChildResult,
  record_child_result,
}
use excavator_orin_runtime.FixedCycle.Machine.Results.Points.{
  get_elem?-listed, get_elem?-lt, point-HasArtifact, dump-HasArtifact, next_index_lt,
}
use excavator_orin_runtime.FixedCycle.Machine.Results.Invariant.{StageOf, IsRunning, IsCycle}

-- The state at the next cycle's Follow.
abbrev pub next_index : Cycle → ℕ
next_index c =
    if ltb (c.snapshot.completed_cycles + 1) c.snapshot.requested_cycles
    then (c.dig_sequence_index + 1) % length c.active_dig_sequence
    else c.dig_sequence_index

abbrev pub next_cycle : Cycle → String → Cycle
next_cycle c target = record c {
  dig_sequence_index = next_index c;
  snapshot = record c.snapshot {
    stage = follow_dig;
    completed_cycles = c.snapshot.completed_cycles + 1;
    current_dig_point_id = target;
  };
}

abbrev pub at_stage : Stage → Cycle → Cycle
at_stage stage c = record c { snapshot = record c.snapshot { stage = stage } }

-- What a result leads to: the end of the mission, its success, or the next stage with a directive.
pub data Leads (c : Cycle) : Outcome (Option Directive) × Cycle → Type 0 where
  fails : (reason : String) → Leads c (ok none, record c { snapshot = failed_by reason c.snapshot })
  cancels :
      (reason : String) → Leads c (ok none, record c { snapshot = cancelled_by reason c.snapshot })
  completes :
      c.snapshot.stage ≡ follow_dig
      → c.snapshot.completed_cycles ≡ c.snapshot.requested_cycles
      → Leads c (ok none, record c { snapshot = completed_with c.snapshot })
  acts :
      (d : Directive)
      → c.snapshot.stage ≡ follow_dig
      → c.snapshot.completed_cycles < c.snapshot.requested_cycles
      → Leads c (ok (some d), at_stage (act_stage c.plan.mission_profile) c)
  dumps :
      (a : TrajectoryArtifact)
      → c.snapshot.stage ≡ act_dig
      → Leads c (ok (some (follow_to "dump" follow_dump a)), at_stage follow_dump c)
  executes :
      (d : Directive)
      → c.snapshot.stage ≡ follow_dump
      → Leads c (ok (some d), at_stage execute_dump c)
  returns :
      (target : String) (a : TrajectoryArtifact)
      → (c.snapshot.stage ≡ execute_dump) ⊎ (c.snapshot.stage ≡ act_whole_cycle)
      → get_elem? c.active_dig_sequence (next_index c) ≡ some target
      → Leads c (ok (some (follow_to target follow_dig a)), next_cycle c target)

module _ (c : Cycle) (v : IsCycle c) (w : IsRunning c) where
  return_to_dig-Leads :
      (c.snapshot.stage ≡ execute_dump) ⊎ (c.snapshot.stage ≡ act_whole_cycle)
      → Leads c (some_directive return_to_dig c)
  unfolding return_to_dig follow_directive some_directive
  return_to_dig-Leads h =
      let i_lt = get_elem?-lt c.active_dig_sequence c.dig_sequence_index w.point in
      let goes_on = ltb (c.snapshot.completed_cycles + 1) c.snapshot.requested_cycles in
      let (target, e, m) =
        get_elem?-listed c.active_dig_sequence (next_index c)
          (next_index_lt goes_on c.dig_sequence_index (length c.active_dig_sequence) i_lt) in
      let (a, p) =
        point-HasArtifact c.plan v.plan c.snapshot.dig_group_id target c.active_dig_sequence w.group
          m in
      let nonzero : (length c.active_dig_sequence == 0) ≡ false = ground arith in
      let eq : some_directive return_to_dig c
          ≡ (ok (some (follow_to target follow_dig a)), next_cycle c target) =
        ground arith in
      rw eq (returns target a h e)

  act_leads_to-Leads :
      (m : MissionProfile)
      → m ≡ c.plan.mission_profile
      → StageOf m c.snapshot.stage
      → (c.snapshot.stage ≡ act_dig) ⊎ (c.snapshot.stage ≡ act_whole_cycle)
      → Leads c (act_leads_to m c)
  unfolding act_leads_to
  act_leads_to-Leads act_full_cycle e s h = return_to_dig-Leads (ground arith)
  act_leads_to-Leads regime_factorized e s h =
      let (a, p) = dump-HasArtifact c.plan v.plan (sym e) in
      let eq : act_leads_to regime_factorized c
          ≡ (ok (some (follow_to "dump" follow_dump a)), at_stage follow_dump c) =
        unfold some_directive follow_directive in ground arith in
      elim h [ inl q ↦ rw eq (dumps a q) | inr q ↦ absurd (let s' = rw q at s in ground arith) ]

  after_act-Leads :
      (reason : String) (steps : Json)
      → (c.snapshot.stage ≡ act_dig) ⊎ (c.snapshot.stage ≡ act_whole_cycle)
      → Leads c (after_act reason steps c)
  unfolding after_act fail_with
  after_act-Leads reason steps h =
      elim (Bool-cases (act_is_done c.plan.act_max_steps reason steps)) [
        | inl e ↦ rw e (act_leads_to-Leads c.plan.mission_profile refl w.stage_of h)
        | inr e ↦ rw e (fails "ACT_STEP_BUDGET_MISMATCH")
      ]

  after_follow_dig-Leads : c.snapshot.stage ≡ follow_dig → Leads c (after_follow_dig c)
  unfolding after_follow_dig
  after_follow_dig-Leads h =
      elim (Bool-cases (c.snapshot.completed_cycles == c.snapshot.requested_cycles)) [
        | inl e ↦ rw e (completes h (ground arith))
        | inr e ↦ let counts = rw h at w.counts in rw e (acts _ h (ground arith))
      ]

  -- A success that does not fit the stage fails.
  fits :
      (t : Bool) (m : Proc Cycle (Option Directive))
      → Leads c (m c)
      → Leads c ((if t then m else fail_with "UNEXPECTED_CHILD_RESULT") c)
  unfolding fail_with
  fits true m h = h
  fits false m h = fails "UNEXPECTED_CHILD_RESULT"

  after_success-Leads :
      (r : ChildResult) (s : Stage)
      → c.snapshot.stage ≡ s
      → Leads c (after_success s r.child r.reason_code r.completed_steps c)
  unfolding after_success
  after_success-Leads r follow_dig e = fits _ after_follow_dig (after_follow_dig-Leads e)
  after_success-Leads r act_dig e =
      fits (str_eq r.child "act") (after_act r.reason_code r.completed_steps)
        (after_act-Leads r.reason_code r.completed_steps (inl e))
  after_success-Leads r act_whole_cycle e =
      fits (str_eq r.child "act") (after_act r.reason_code r.completed_steps)
        (after_act-Leads r.reason_code r.completed_steps (inr e))
  after_success-Leads r follow_dump e = fits _ after_follow_dump (executes _ e)
  after_success-Leads r execute_dump e =
      fits _ (some_directive return_to_dig) (return_to_dig-Leads (inl e))
  after_success-Leads r idle e = fails "UNEXPECTED_CHILD_RESULT"
  after_success-Leads r completed e = fails "UNEXPECTED_CHILD_RESULT"
  after_success-Leads r failed e = fails "UNEXPECTED_CHILD_RESULT"
  after_success-Leads r cancelled e = fails "UNEXPECTED_CHILD_RESULT"

  -- A result of the child of a mission under way is never refused, and leads on as `Leads` says.
  pub record_child_result-Leads :
      (r : ChildResult) → is_active c ≡ true → Leads c (record_child_result r c)
  unfolding record_child_result
  record_child_result-Leads r a = rw a (elim (Bool-cases r.quiescence_confirmed) [
    | inr e ↦ rw e (fails "CHILD_NOT_QUIESCENT")
    | inl e ↦ rw e (elim (Bool-cases (str_eq r.outcome "CANCELLED")) [
      | inl p ↦ rw p (cancels (text_or r.reason_code "CANCELLED"))
      | inr p ↦ rw p (elim (Bool-cases (str_eq r.outcome "SUCCEEDED")) [
        | inl q ↦ rw q (after_success-Leads r c.snapshot.stage refl)
        | inr q ↦ rw q (fails (text_or r.reason_code "CHILD_FAILED"))
      ])
    ])
  ])
