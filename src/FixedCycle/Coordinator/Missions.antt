-- ===== src/FixedCycle/Coordinator/Missions.antt =====
-- The coordinator of edge_runtime/resident_fixed_cycle.py over any sequence of calls: its flag of the
-- terminal disarm, and the calls that its driver has answered.
use excavator_orin_runtime.Prelude.{
  ◌≡◌, refl, ap, ◌∙◌, String, Bool, true, false, not, Option, List, [], ◌∷◌, arith, if◌then◌else◌,
  Bool-cases, inl, inr,
}
use excavator_orin_runtime.Prelude.Fault.{Error, Outcome, ok, raised}
use excavator_orin_runtime.Json.{Json}
use excavator_orin_runtime.FixedCycle.Values.{identifier, is_safe_id}
use excavator_orin_runtime.Prelude.Proc.{Proc, and_then, return, ◌>>◌}
use excavator_orin_runtime.FixedCycle.Plan.{Plan, MissionProfile, regime_factorized, act_full_cycle}
use excavator_orin_runtime.FixedCycle.Plan.Mapping.Facts.{IsPlan}
use excavator_orin_runtime.FixedCycle.Machine.{
  Stage, failed, Directive, Cycle, new_cycle, is_active, failed_by, cancelled_by, follow_to,
  follow_dig, follow_dump, execute_dump,
}
use excavator_orin_runtime.FixedCycle.Machine as Machine
use excavator_orin_runtime.FixedCycle.Machine.Results.{ChildResult, act_stage, completed_with}
use excavator_orin_runtime.FixedCycle.Machine.Results.Invariant.{IsCycle}
use excavator_orin_runtime.FixedCycle.Machine.Results.Step.{
  Leads, at_stage, next_cycle, fails, cancels, completes, acts, dumps, executes, returns,
  record_child_result-Leads,
}
use excavator_orin_runtime.FixedCycle.Machine.Results.Keeps.{
  record_child_result-IsCycle, refused as not_taken, ended-IsCycle,
}
use excavator_orin_runtime.FixedCycle.Machine.Results.Start.{
  Starts, refused, refused_late, begun, start-Starts, start-IsCycle, new_cycle-IsCycle,
}
use excavator_orin_runtime.FixedCycle.Coordinator.Closing.{
  disarm_confirmed, Confirmed, terminal_disarm-Confirmed, dispatch-Confirmed, terminal_disarm_lem,
  dispatch-Dispatched, failed_cycle,
}
use excavator_orin_runtime.FixedCycle.Coordinator.{
  Coordinator, terminal_disarm, in_cycle, dispatch, start, record_child_result, follow_up,
  disarm_if_terminal, cancel, fail, new_coordinator,
}

-- The calls of the coordinator.
pub data Operation : Type 0 where
  starts : String → Json → Option String → Option String → Operation
  records : ChildResult → Operation
  cancels_run : Operation
  fails_run : String → Operation

unfoldable pub perform : Operation → Proc Coordinator Unit
perform (starts run_id requested first group_id) = start run_id requested first group_id
perform (records r) = record_child_result r
perform cancels_run = cancel
perform (fails_run reason) = fail reason

-- The flag is down while a mission is under way, and up only over a disarm that returned.
pub record Armed (c : Coordinator) : Type 0 where
  pub cycle : IsCycle c.cycle
  pub armed : is_active c.cycle ≡ true → c.terminal_disarmed ≡ false
  pub confirmed : Confirmed c

-- What an operation keeps; and once it returns, the flag is up, and the latest call of the driver
-- was a disarm that returned, exactly where the mission is not under way.
abbrev pub Closes : Outcome (Unit {0}) × Coordinator → Type 0
Closes x =
    Armed x.1
    × (x.0 ≡ ok tt
        → (x.1.terminal_disarmed ≡ not (is_active x.1.cycle))
          × (disarm_confirmed x.1.calls ≡ not (is_active x.1.cycle)))

-- With the flag down.
with_flag_down : (c : Coordinator) → IsCycle c.cycle → c.terminal_disarmed ≡ false → Armed c
with_flag_down c v f = record { cycle = v; armed = λ _. f; confirmed = λ h. absurd (ground arith) }

inactive-Closes :
    (x : Outcome (Unit {0}) × Coordinator)
    → IsCycle x.1.cycle
    → is_active x.1.cycle ≡ false
    → Confirmed x.1
    → (x.0 ≡ ok tt → x.1.terminal_disarmed ≡ true)
    → Closes x
inactive-Closes x v a k h = (
  record { cycle = v; armed = λ b. absurd (ground arith); confirmed = k },
  λ o. rw a (h o, k (h o)),
)

dispatch-Closes :
    (d : Directive) (c : Coordinator) → Armed c → is_active c.cycle ≡ true → Closes (dispatch d c)
dispatch-Closes d c v a = elim (dispatch-Dispatched d c a) [
  | inl (o, k, t, n) ↦ (
    with_flag_down (dispatch d c).1 (rw k v.cycle) (t ∙ v.armed a),
    λ _. rw (k, a) (t ∙ v.armed a, n),
  )
  | inr (k, z) ↦
      inactive-Closes (dispatch d c)
        (rw k (
          ended-IsCycle c.cycle (failed_cycle c.cycle).snapshot v.cycle refl refl refl refl
            (λ e. absurd (ground arith))))
        (rw k refl) (dispatch-Confirmed d c a (v.armed a))
        (λ o. elim z [ inl p ↦ p.1 | inr p ↦ absurd (let q = p.0 in ground arith) ])
]

-- Where a mission is over the disarm is called, and the call returns only if it is confirmed.
ended-Closes :
    (c : Coordinator)
    → IsCycle c.cycle
    → is_active c.cycle ≡ false
    → c.cycle.snapshot.terminal ≡ true
    → Confirmed c
    → Closes (disarm_if_terminal c)
unfolding disarm_if_terminal
ended-Closes c v a t f =
    let (k, z) = terminal_disarm_lem c in
    let eq : disarm_if_terminal c ≡ terminal_disarm c =
      ap (λ (b : Bool). if b then terminal_disarm c else return tt c) t in
    rw eq (
      inactive-Closes (terminal_disarm c) (rw k v) (rw k a) (terminal_disarm-Confirmed c f)
        λ o. elim z [ inl (_, d) ↦ d | inr (e, r, _) ↦ absurd (ground arith) ])

module _ (c : Coordinator) (v : Armed c) (a : is_active c.cycle ≡ true) where
  followed :
      {x : Outcome (Option Directive) × Cycle}
      → Leads c.cycle x
      → IsCycle x.1
      → Closes (and_then x.0 follow_up (record c { cycle = x.1 }))
  unfolding follow_up
  followed (fails reason) w =
      ended-Closes
        (record c { cycle = record c.cycle { snapshot = failed_by reason c.cycle.snapshot } }) w
        refl refl v.confirmed
  followed (cancels reason) w =
      ended-Closes
        (record c { cycle = record c.cycle { snapshot = cancelled_by reason c.cycle.snapshot } }) w
        refl refl v.confirmed
  followed (completes s e) w =
      ended-Closes
        (record c { cycle = record c.cycle { snapshot = completed_with c.cycle.snapshot } }) w refl
        refl v.confirmed
  followed (acts d s n) w =
      let k = at_stage (act_stage c.cycle.plan.mission_profile) c.cycle in
      dispatch-Closes d (record c { cycle = k }) (with_flag_down _ w (v.armed a))
        (act_runs c.cycle.plan.mission_profile)
    where
      act_runs : (m : MissionProfile) → is_active (at_stage (act_stage m) c.cycle) ≡ true
      act_runs regime_factorized = ground arith
      act_runs act_full_cycle = ground arith
  followed (dumps t s) w =
      dispatch-Closes (follow_to "dump" follow_dump t)
        (record c { cycle = at_stage follow_dump c.cycle }) (with_flag_down _ w (v.armed a))
        (ground arith)
  followed (executes d s) w =
      dispatch-Closes d (record c { cycle = at_stage execute_dump c.cycle })
        (with_flag_down _ w (v.armed a)) (ground arith)
  followed (returns target t s e) w =
      dispatch-Closes (follow_to target follow_dig t)
        (record c { cycle = next_cycle c.cycle target }) (with_flag_down _ w (v.armed a))
        (ground arith)

-- An operation that raises and leaves the coordinator as it is.
raised-Closes : (e : Error) (c : Coordinator) → Armed c → Closes (raised e, c)
raised-Closes e c v = (v, λ o. absurd (ground arith))

records-Closes : (r : ChildResult) (c : Coordinator) → Armed c → Closes (record_child_result r c)
unfolding record_child_result in_cycle
records-Closes r c v = elim (Bool-cases (is_active c.cycle)) [
  | inl a ↦
      followed c v a (record_child_result-Leads c.cycle v.cycle (v.cycle.running a) r a)
        (record_child_result-IsCycle c.cycle r v.cycle)
  | inr a ↦ rw (not_taken c.cycle r a) (raised-Closes _ c v)
]

begun_with :
    (c : Coordinator) {x : Outcome Directive × Cycle}
    → Starts c.cycle x
    → IsCycle x.1
    → c.terminal_disarmed ≡ false
    → Closes (and_then x.0 dispatch (record c { cycle = x.1 }))
begun_with c (refused e) w t = (with_flag_down _ w t, λ o. absurd (ground arith))
begun_with c (refused_late e points i a) w t = (with_flag_down _ w t, λ o. absurd (ground arith))
begun_with c (begun run_id n first group_id points artifact low high q m) w t =
    dispatch-Closes (follow_to first follow_dig artifact) _ (with_flag_down _ w t) refl

starts-Closes :
    (run_id : String) (requested : Json) (first group_id : Option String) (c : Coordinator)
    → Armed c
    → Closes (start run_id requested first group_id c)
unfolding start in_cycle
starts-Closes run_id requested first group_id c v =
    begun_with (record c { terminal_disarmed = false })
      (start-Starts c.cycle v.cycle.plan run_id requested first group_id)
      (start-IsCycle run_id requested first group_id c.cycle v.cycle) refl

-- The machine's `cancel` and `fail`, which end a mission that is under way.
Ended : Cycle → Outcome (Unit {0}) × Cycle → Type 0
Ended k x = (is_active x.1 ≡ false) × IsCycle x.1

cancel-Ended : (reason : String) (k : Cycle) → IsCycle k → Ended k (Machine.cancel reason k)
unfolding Machine.cancel Ended
cancel-Ended reason k v = elim (Bool-cases (is_active k)) [
  | inr a ↦ rw a (a, v)
  | inl a ↦ rw a (
    refl,
    ended-IsCycle k (cancelled_by reason k.snapshot) v refl refl refl refl
        (λ e. absurd (ground arith)),
  )
]

fail-Ended :
    (reason : String) (k : Cycle)
    → IsCycle k
    → is_safe_id reason ≡ true
    → Ended k (Machine.fail reason k)
unfolding Machine.fail Ended identifier
fail-Ended reason k v safe = elim (Bool-cases (is_active k)) [
  | inr a ↦ rw a (a, v)
  | inl a ↦
      rw (a, safe)
        (
          refl,
          ended-IsCycle k (failed_by reason k.snapshot) v refl refl refl refl
              (λ e. absurd (ground arith)),
        )
]

-- The disarm, then a call of the machine that leaves no mission under way.
disarm_then :
    (m : Proc Cycle Unit) (c : Coordinator)
    → Armed c
    → Ended c.cycle (m c.cycle)
    → Closes ((do terminal_disarm; in_cycle m) c)
unfolding in_cycle Ended
disarm_then m c v (a, w) =
    let (k, z) = terminal_disarm_lem c in
    let f = terminal_disarm-Confirmed c v.confirmed in
    elim z [
      | inl (o, d) ↦ rw (o, k) (inactive-Closes _ w a f (λ _. d))
      | inr (e, o, d) ↦ rw o (
        record { cycle = rw k v.cycle; armed = rw (k, d) v.armed; confirmed = f },
        λ r. absurd (ground arith),
      )
    ]

-- The reasons that a mission is failed with are identifiers.
abbrev pub Allowed : Operation → Type 0
Allowed (fails_run reason) = is_safe_id reason ≡ true
Allowed _ = Unit

perform-Closes : (x : Operation) (c : Coordinator) → Allowed x → Armed c → Closes (perform x c)
unfolding perform cancel fail
perform-Closes (starts run_id requested first group_id) c h v =
    starts-Closes run_id requested first group_id c v
perform-Closes (records r) c h v = records-Closes r c v
perform-Closes cancels_run c h v =
    disarm_then (Machine.cancel "CANCELLED") c v (cancel-Ended "CANCELLED" c.cycle v.cycle)
perform-Closes (fails_run reason) c h v =
    disarm_then (Machine.fail reason) c v (fail-Ended reason c.cycle v.cycle h)

unfoldable pub perform_all : List Operation → Coordinator → Coordinator
perform_all [] c = c
perform_all (x ∷ xs) c = perform_all xs (perform x c).1

abbrev pub AllAllowed : List Operation → Type 0
AllAllowed [] = Unit
AllAllowed (x ∷ xs) = Allowed x × AllAllowed xs

perform_all-Armed :
    (xs : List Operation) (c : Coordinator) → AllAllowed xs → Armed c → Armed (perform_all xs c)
unfolding perform_all
perform_all-Armed [] c h v = v
perform_all-Armed (x ∷ xs) c h v =
    perform_all-Armed xs (perform x c).1 h.1 (perform-Closes x c h.0 v).0

new_coordinator-Armed :
    (p : Plan) (replies : List (Outcome (Unit {0}))) → IsPlan p → Armed (new_coordinator p replies)
unfolding new_coordinator
new_coordinator-Armed p replies wf = with_flag_down _ (new_cycle-IsCycle p wf) refl

-- After any calls on a coordinator of a well-formed plan, and whatever the driver answers, if the
-- missions are failed with identifiers only: the flag of the terminal disarm is down while a mission
-- is under way, and it is up only where the driver's latest call was a disarm that returned. Where a
-- call of the coordinator returns and no mission is under way, the flag is up, so the driver's latest
-- call was such a disarm; where it returns and a mission is under way, the latest call was not.
pub perform-Closes_missions :
    (p : Plan) (replies : List (Outcome (Unit {0}))) (xs : List Operation) (x : Operation)
    → IsPlan p
    → AllAllowed xs
    → Allowed x
    → Closes (perform x (perform_all xs (new_coordinator p replies)))
perform-Closes_missions p replies xs x wf hs h =
    perform-Closes x (perform_all xs (new_coordinator p replies)) h
      (perform_all-Armed xs (new_coordinator p replies) hs (new_coordinator-Armed p replies wf))
