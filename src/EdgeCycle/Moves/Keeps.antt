-- ===== src/EdgeCycle/Moves/Keeps.antt =====
-- The calls of the cycle of edge_runtime/cycle.py, and the legal moves.
use mathlib.Core.Path.{subst}
use excavator_orin_runtime.Prelude.{
  String, Bool, true, false, ◌||◌, not, ◌≡◌, ◌⊎◌, inl, inr, refl, sym, ap, ◌∙◌, arith, is_empty,
  strip, str_eq, Bool-cases, str_eq_iff,
}
use excavator_orin_runtime.Prelude.Fault.{value_error, cycle_id_text, Error, raised}
use excavator_orin_runtime.Json.{Json, text, object, Members}
use excavator_orin_runtime.EdgeCycle.{
  Stage, idle, follow_dig, execute_dig, waiting_for_dump_trajectory, follow_dump, execute_dump,
  completed, cancelled, failed, CycleStatus, is_idle, is_waiting, cycle_id_of, trajectory_of, start,
  cancel, fail, ended_by, unexpected, after_success, after_cancel, record_behavior_result,
  provide_dump_trajectory,
}
use excavator_orin_runtime.EdgeCycle.Moves.{
  Event, started, resulted, provided, cancelled_for, step, is_ended, is_open, behavior_of,
  outcome_of, IsCoherent, is_mapping, is_name, Moves, starts, follows_dig, digs, gets_trajectory,
  follows_dump, dumps, fails, reports_cancel, cancels, refuses, Keeps, Misfits, is_expected,
  expected_reason,
}

ended-IsCoherent :
    (st : Stage) (reason : String) (s : CycleStatus)
    → is_ended st ≡ true
    → IsCoherent (ended_by st (outcome_of st) reason s)
ended-IsCoherent completed reason s h = record { behavior = refl; terminal = refl; outcome = refl }
ended-IsCoherent cancelled reason s h = record { behavior = refl; terminal = refl; outcome = refl }
ended-IsCoherent failed reason s h = record { behavior = refl; terminal = refl; outcome = refl }
ended-IsCoherent _ reason s h = absurd (cc)

is_waiting-stage : (st : Stage) → is_waiting st ≡ true → st ≡ waiting_for_dump_trajectory
is_waiting-stage waiting_for_dump_trajectory h = refl
is_waiting-stage _ h = absurd (cc)

trajectory_cases :
    (v : Json)
    → ((ms : Members) × (v ≡ object ms))
      ⊎ ((is_mapping v ≡ false) × (e : Error) × (trajectory_of v ≡ raised e))
trajectory_cases (object ms) = inl (ms, refl)
trajectory_cases _ = inr (refl, _, refl)

name_cases :
    (v : Json)
    → ((n : String) × (v ≡ text n) × (is_empty (strip n) ≡ false))
      ⊎ ((is_name v ≡ false) × (e : Error) × (cycle_id_of v ≡ raised e))
name_cases (text n) = elim (Bool-cases (is_empty (strip n))) [
  | inl e ↦ inr (ap not e, value_error cycle_id_text, rw e refl)
  | inr e ↦ inl (n, refl, e)
]
name_cases _ = inr (refl, _, refl)

module _ (s : CycleStatus) (c : IsCoherent s) where
  fail-Keeps :
      (outcome given reason : String) (quiescent : Bool)
      → Misfits s.stage outcome given quiescent
      → Keeps s.stage (resulted outcome given quiescent) (fail reason s).1
  fail-Keeps outcome given reason quiescent m =
      (fails s.stage outcome given quiescent m, ended-IsCoherent failed reason s refl)

  unexpected-Keeps :
      (st : Stage) (o r : String)
      → str_eq o "CANCELLED" ≡ false
      → is_expected (expected_reason st) r ≡ false
      → Keeps st (resulted o r true) (unexpected r s).1
  unexpected-Keeps st o r n m =
      (fails st o r true (inr (n, inr m)), ended-IsCoherent failed _ s refl)

  going-IsCoherent :
      (st next : Stage)
      → s.stage ≡ st
      → is_ended st ≡ false
      → outcome_of st ≡ ""
      → is_ended next ≡ false
      → outcome_of next ≡ ""
      → IsCoherent (record s { stage = next; active_behavior = behavior_of next })
  going-IsCoherent st next e goes none goes' none' = record {
    behavior = refl;
    terminal = c.terminal ∙ ap is_ended e ∙ goes ∙ sym goes';
    outcome = c.outcome ∙ ap outcome_of e ∙ none ∙ sym none';
  }

  after_success-Keeps :
      (st : Stage) (o r : String)
      → s.stage ≡ st
      → o ≡ "SUCCEEDED"
      → str_eq o "CANCELLED" ≡ false
      → Keeps st (resulted o r true) (after_success st r s).1
  unfolding after_success
  after_success-Keeps follow_dig o r e h n = elim (Bool-cases (str_eq r "SUCCEEDED")) [
    | inl q ↦ rw q (
      follows_dig o r h ((str_eq_iff r "SUCCEEDED").0 q),
      going-IsCoherent follow_dig execute_dig e refl refl refl refl,
    )
    | inr q ↦ rw q (unexpected-Keeps follow_dig o r n q)
  ]
  after_success-Keeps execute_dig o r e h n = elim (Bool-cases (str_eq r "SEQUENCE_COMPLETED")) [
    | inl q ↦ rw q (
      digs o r h ((str_eq_iff r "SEQUENCE_COMPLETED").0 q),
      going-IsCoherent execute_dig waiting_for_dump_trajectory e refl refl refl refl,
    )
    | inr q ↦ rw q (unexpected-Keeps execute_dig o r n q)
  ]
  after_success-Keeps follow_dump o r e h n = elim (Bool-cases (str_eq r "SUCCEEDED")) [
    | inl q ↦ rw q (
      follows_dump o r h ((str_eq_iff r "SUCCEEDED").0 q),
      going-IsCoherent follow_dump execute_dump e refl refl refl refl,
    )
    | inr q ↦ rw q (unexpected-Keeps follow_dump o r n q)
  ]
  after_success-Keeps execute_dump o r e h n = elim (Bool-cases (str_eq r "SEQUENCE_COMPLETED")) [
    | inl q ↦
        rw q (
          dumps o r h ((str_eq_iff r "SEQUENCE_COMPLETED").0 q),
          ended-IsCoherent completed _ s refl,
        )
    | inr q ↦ rw q (unexpected-Keeps execute_dump o r n q)
  ]
  after_success-Keeps idle o r e h n = unexpected-Keeps idle o r n refl
  after_success-Keeps waiting_for_dump_trajectory o r e h n =
      unexpected-Keeps waiting_for_dump_trajectory o r n refl
  after_success-Keeps completed o r e h n = unexpected-Keeps completed o r n refl
  after_success-Keeps cancelled o r e h n = unexpected-Keeps cancelled o r n refl
  after_success-Keeps failed o r e h n = unexpected-Keeps failed o r n refl

  open_terminal : is_open s.stage ≡ not (is_idle s.stage || s.terminal)
  open_terminal = rw c.terminal refl

  cancel-Keeps :
      (e : Event) (reason : String)
      → (is_open s.stage ≡ true → Moves s.stage e cancelled)
      → (is_open s.stage ≡ false → Moves s.stage e s.stage)
      → Keeps s.stage e (cancel reason s).1
  unfolding cancel
  cancel-Keeps e reason moves stays = elim (Bool-cases (is_idle s.stage || s.terminal)) [
    | inl h ↦ rw h (stays (ground arith), c)
    | inr h ↦ rw h (moves (ground arith), ended-IsCoherent cancelled reason s refl)
  ]

  after_cancel-Keeps :
      (o r : String) → o ≡ "CANCELLED" → Keeps s.stage (resulted o r true) (after_cancel r s).1
  unfolding after_cancel cancel
  after_cancel-Keeps o r h = elim (Bool-cases (is_idle s.stage || s.terminal)) [
    | inl e ↦ rw e (refuses s.stage (resulted o r true) (open_terminal ∙ ap not e, h, refl), c)
    | inr e ↦ rw e (
      reports_cancel s.stage o r (open_terminal ∙ ap not e) h,
      ended-IsCoherent cancelled _ s refl,
    )
  ]

  resulted-Keeps :
      (o r : String) (quiescent : Bool)
      → Keeps s.stage (resulted o r quiescent) (record_behavior_result o r quiescent s).1
  unfolding record_behavior_result
  resulted-Keeps o r false = fail-Keeps o r "CHILD_NOT_QUIESCENT" false (inl refl)
  resulted-Keeps o r true = elim (Bool-cases (str_eq o "CANCELLED")) [
    | inl a ↦ rw a (after_cancel-Keeps o r ((str_eq_iff o "CANCELLED").0 a))
    | inr a ↦ elim (Bool-cases (str_eq o "SUCCEEDED")) [
      | inl b ↦ rw (a, b) (after_success-Keeps s.stage o r refl ((str_eq_iff o "SUCCEEDED").0 b) a)
      | inr b ↦ rw (a, b) (fail-Keeps o r _ true (inr (a, inl b)))
    ]
  ]

  provided-Keeps : (v : Json) → Keeps s.stage (provided v) (provide_dump_trajectory v s).1
  unfolding provide_dump_trajectory
  provided-Keeps v = elim (Bool-cases (is_waiting s.stage)) [
    | inr e ↦ rw e (refuses s.stage (provided v) (inl e), c)
    | inl e ↦
        let q = is_waiting-stage s.stage e in
        elim (trajectory_cases v) [
          | inl (ms, k) ↦
              rw (e, k)
                (
                  subst (λ (st : Stage). Moves st (provided (object ms)) follow_dump) (sym q)
                      (gets_trajectory ms),
                  going-IsCoherent waiting_for_dump_trajectory follow_dump q refl refl refl refl,
                )
          | inr (k, x, j) ↦ rw (e, j) (refuses s.stage (provided v) (inr k), c)
        ]
  ]

  started-Keeps : (id v : Json) → Keeps s.stage (started id v) (start id v s).1
  unfolding start
  started-Keeps id v = elim (Bool-cases (is_idle s.stage || s.terminal)) [
    | inr e ↦ rw e (refuses s.stage (started id v) (inl (open_terminal ∙ ap not e)), c)
    | inl e ↦ elim (name_cases id) [
      | inr (k, x, j) ↦ rw (e, j) (refuses s.stage (started id v) (inr (inl k)), c)
      | inl (n, k, j) ↦ elim (trajectory_cases v) [
        | inr (l, x, i) ↦ rw (e, k, j, i) (refuses s.stage (started (text n) v) (inr (inr l)), c)
        | inl (ms, l) ↦
            rw (e, k, j, l)
              (
                starts s.stage n ms (open_terminal ∙ ap not e) j,
                record { behavior = refl; terminal = refl; outcome = refl },
              )
      ]
    ]
  ]

  pub step-Keeps : (e : Event) → Keeps s.stage e (step e s)
  unfolding step
  step-Keeps (started id v) = started-Keeps id v
  step-Keeps (resulted o r quiescent) = resulted-Keeps o r quiescent
  step-Keeps (provided v) = provided-Keeps v
  step-Keeps (cancelled_for r) =
      cancel-Keeps (cancelled_for r) r (cancels s.stage r) (refuses s.stage (cancelled_for r))
