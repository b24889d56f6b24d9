-- ===== src/EdgeCycle/Examples.antt =====
-- The theorems about edge_runtime/cycle.py at a cycle that is completed.
use excavator_orin_runtime.Prelude.{String, ◌≡◌, refl, true, List, [], ◌∷◌, str_eq, strip}
use excavator_orin_runtime.Json.{text, object, Members, end}
use excavator_orin_runtime.EdgeCycle.{
  completed, start, record_behavior_result, provide_dump_trajectory,
}
use excavator_orin_runtime.EdgeCycle.Moves.{
  Event, started, resulted, provided, step, Moves, IsCoherent,
}
use excavator_orin_runtime.EdgeCycle.History.{run, step-Moves, Within, legs_of, completed_took_all}

-- Among the legs, a trajectory that is provided too early, which is refused.
abbrev before_the_last : List Event
before_the_last =
    resulted "SUCCEEDED" "SUCCEEDED" true
    ∷ provided (object end)
    ∷ resulted "SUCCEEDED" "SEQUENCE_COMPLETED" true
    ∷ provided (object end)
    ∷ resulted "SUCCEEDED" "SUCCEEDED" true
    ∷ started (text "cycle-7") (object end)
    ∷ []

abbrev last : Event
last = resulted "SUCCEEDED" "SEQUENCE_COMPLETED" true

run-completed : (run (last ∷ before_the_last)).stage ≡ completed
unfolding run step start record_behavior_result str_eq provide_dump_trajectory strip
run-completed = refl

step-Moves_example :
    Moves (run before_the_last).stage last (step last (run before_the_last)).stage
    × IsCoherent (step last (run before_the_last))
step-Moves_example = step-Moves before_the_last last

completed_took_all_example :
    (cycle_id : String) × (dig : Members) × (dump : Members) × Within
      (legs_of completed cycle_id dig dump)
      (last ∷ before_the_last)
completed_took_all_example = completed_took_all (last ∷ before_the_last) run-completed
