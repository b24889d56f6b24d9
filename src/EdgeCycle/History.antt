-- ===== src/EdgeCycle/History.antt =====
-- Any sequence of calls of the cycle of edge_runtime/cycle.py, the latest first.
use mathlib.Core.Path.{subst}
use excavator_orin_runtime.Prelude.{String, ◌≡◌, refl, sym, true, List, [], ◌∷◌}
use excavator_orin_runtime.Json.{text, object, Members, end}
use excavator_orin_runtime.EdgeCycle.{
  Stage, idle, follow_dig, execute_dig, waiting_for_dump_trajectory, follow_dump, execute_dump,
  completed, cancelled, failed, CycleStatus, new_status,
}
use excavator_orin_runtime.EdgeCycle.Moves.{
  Event, started, resulted, provided, step, IsCoherent, Moves, starts, follows_dig, digs,
  gets_trajectory, follows_dump, dumps, fails, reports_cancel, cancels, refuses,
}
use excavator_orin_runtime.EdgeCycle.Moves.Keeps.{step-Keeps}

unfoldable pub run : List Event → CycleStatus
run [] = new_status
run (e ∷ es) = step e (run es)

run-IsCoherent : (es : List Event) → IsCoherent (run es)
unfolding run
run-IsCoherent [] = record { behavior = refl; terminal = refl; outcome = refl }
run-IsCoherent (e ∷ es) = (step-Keeps (run es) (run-IsCoherent es) e).1

-- Whatever was called, and whatever is called next: the next stage of the cycle is reached by a
-- legal move. The legs come in their order, each by the result that its child should give and with
-- the machine at rest. A reported cancellation, with the machine at rest, and a call of `cancel`
-- cancel a cycle that is under way and are refused otherwise. Every other result, and no result that
-- fits, fails the cycle, one that comes after its end as well. A call that is refused leaves the
-- stage. The behaviour that is active, the flag of the end and the outcome are those of the stage.
pub step-Moves :
    (es : List Event) (e : Event)
    → Moves (run es).stage e (step e (run es)).stage × IsCoherent (step e (run es))
step-Moves es e = step-Keeps (run es) (run-IsCoherent es) e

-- The events of the first list are in the second, in this order.
pub data Within : List Event → List Event → Type 0 where
  no_more : (es : List Event) → Within [] es
  found : (p e : Event) {ps es : List Event} → p ≡ e → Within ps es → Within (p ∷ ps) (e ∷ es)
  passed : (e : Event) {ps es : List Event} → Within ps es → Within ps (e ∷ es)

module _ (cycle_id : String) (dig dump : Members) where
  abbrev begun : List Event
  begun = started (text cycle_id) (object dig) ∷ []

  abbrev dug : List Event
  dug =
      resulted "SUCCEEDED" "SEQUENCE_COMPLETED" true ∷ resulted "SUCCEEDED" "SUCCEEDED" true ∷ begun

  abbrev followed : List Event
  followed = resulted "SUCCEEDED" "SUCCEEDED" true ∷ provided (object dump) ∷ dug

-- The events that lead to a stage, the latest first.
abbrev pub legs_of : Stage → String → Members → Members → List Event
legs_of follow_dig i a b = begun i a b
legs_of execute_dig i a b = resulted "SUCCEEDED" "SUCCEEDED" true ∷ begun i a b
legs_of waiting_for_dump_trajectory i a b = dug i a b
legs_of follow_dump i a b = provided (object b) ∷ dug i a b
legs_of execute_dump i a b = followed i a b
legs_of completed i a b = resulted "SUCCEEDED" "SEQUENCE_COMPLETED" true ∷ followed i a b
legs_of _ i a b = []

abbrev pub Took : Stage → List Event → Type 0
Took st es =
    (cycle_id : String) × (dig : Members) × (dump : Members) × Within (legs_of st cycle_id dig dump)
      es

Took-nothing : (st : Stage) (es : List Event) → legs_of st "" end end ≡ [] → Took st es
Took-nothing st es h = ("", end, end, subst (λ ls. Within ls es) (sym h) (no_more es))

result_is : {o r o' r' : String} → o ≡ o' → r ≡ r' → resulted o' r' true ≡ resulted o r true
result_is h k = rw (h, k) refl

Moves-Took :
    (st next : Stage) (e : Event) (es : List Event)
    → Moves st e next
    → Took st es
    → Took next (e ∷ es)
Moves-Took _ _ _ es (starts st i ms h k) w = (i, ms, end, found _ _ refl (no_more es))
Moves-Took _ _ _ es (follows_dig o r h k) (i, a, b, w) = (i, a, b, found _ _ (result_is h k) w)
Moves-Took _ _ _ es (digs o r h k) (i, a, b, w) = (i, a, b, found _ _ (result_is h k) w)
Moves-Took _ _ _ es (gets_trajectory ms) (i, a, b, w) = (i, a, ms, found _ _ refl w)
Moves-Took _ _ _ es (follows_dump o r h k) (i, a, b, w) = (i, a, b, found _ _ (result_is h k) w)
Moves-Took _ _ _ es (dumps o r h k) (i, a, b, w) = (i, a, b, found _ _ (result_is h k) w)
Moves-Took _ _ e es (fails st o r q m) w = Took-nothing failed (e ∷ es) refl
Moves-Took _ _ e es (reports_cancel st o r h k) w = Took-nothing cancelled (e ∷ es) refl
Moves-Took _ _ e es (cancels st r h) w = Took-nothing cancelled (e ∷ es) refl
Moves-Took _ _ _ es (refuses st e h) (i, a, b, w) = (i, a, b, passed e w)

run-Took : (es : List Event) → Took (run es).stage es
unfolding run
run-Took [] = Took-nothing idle [] refl
run-Took (e ∷ es) = Moves-Took (run es).stage _ e es (step-Moves es e).0 (run-Took es)

-- A cycle is completed only after all of its legs, whatever else was called in between: it was
-- started with a name and a dig trajectory, the Follow and the ExecuteDig behaviour succeeded, a
-- dump trajectory was provided, and the Follow and the ExecuteDump behaviour succeeded, in this
-- order and each with the machine at rest.
pub completed_took_all :
    (es : List Event)
    → (run es).stage ≡ completed
    → (cycle_id : String) × (dig : Members) × (dump : Members) × Within
        (legs_of completed cycle_id dig dump)
        es
completed_took_all es h = subst (λ (st : Stage). Took st es) h (run-Took es)
