-- ===== src/Sink/History.antt =====
-- Sequences of calls on the sink of edge_runtime/resident_sink.py.
pub mod Safety
pub mod Stopped
pub mod Started
pub mod Generations
use excavator_orin_runtime.Prelude.{ℕ, ◌≡◌, Bool, true, List, [], ◌∷◌, arith}
use excavator_orin_runtime.Motion.{PolicyBinding, MotionCandidate}
use excavator_orin_runtime.Sink.{Sink, Telemetry, new_sink}
use excavator_orin_runtime.Sink.Requests.{
  initialize, request_handoff, request_stop, request_source_stop, terminal_disarm,
}
use excavator_orin_runtime.Sink.Observe.{observe_telemetry, invalidate_telemetry}
use excavator_orin_runtime.Sink.Submit.{submit_candidate, tick}
use excavator_orin_runtime.Sink.Consistency.{IsConsistent}
use excavator_orin_runtime.Sink.Consistency.Requests.{
  new_sink-IsConsistent, initialize-IsConsistent, request_handoff-IsConsistent,
  request_stop-IsConsistent, request_source_stop-IsConsistent, terminal_disarm-IsConsistent,
}
use excavator_orin_runtime.Sink.Consistency.Observe.{
  observe_telemetry-IsConsistent, invalidate_telemetry-IsConsistent,
}
use excavator_orin_runtime.Sink.Consistency.Submit.{
  submit_candidate-IsConsistent, tick-IsConsistent,
}

-- The public methods that change the sink, with their arguments.
pub data Method : Type 0 where
  initialized observed : Telemetry → Method
  invalidated : ℕ → Bool → Method
  handed_off : PolicyBinding → ℕ → Method
  stopped ticked disarmed : ℕ → Method
  source_stopped : PolicyBinding → ℕ → ℕ → Method
  submitted : MotionCandidate → ℕ → Method

-- The state that a call leaves, also where it raises.
unfoldable pub step : Method → Sink → Sink
step (initialized f) s = (initialize f s).1
step (observed f) s = (observe_telemetry f s).1
step (invalidated now alive) s = (invalidate_telemetry now alive s).1
step (handed_off b now) s = (request_handoff b now s).1
step (stopped now) s = (request_stop now s).1
step (ticked now) s = (tick now s).1
step (disarmed now) s = (terminal_disarm now s).1
step (source_stopped b generation now) s = (request_source_stop b generation now s).1
step (submitted c now) s = (submit_candidate c now s).1

unfoldable pub run : List Method → Sink → Sink
run [] s = s
run (m ∷ ms) s = run ms (step m s)

pub step-IsConsistent : (m : Method) (s : Sink) → IsConsistent s → IsConsistent (step m s)
unfolding step
step-IsConsistent (initialized f) s v = initialize-IsConsistent s v f
step-IsConsistent (observed f) s v = observe_telemetry-IsConsistent f s v
step-IsConsistent (invalidated now alive) s v = invalidate_telemetry-IsConsistent now alive s v
step-IsConsistent (handed_off b now) s v = request_handoff-IsConsistent s v b now
step-IsConsistent (stopped now) s v = request_stop-IsConsistent s v now
step-IsConsistent (ticked now) s v = tick-IsConsistent s v now
step-IsConsistent (disarmed now) s v = terminal_disarm-IsConsistent s v now
step-IsConsistent (source_stopped b generation now) s v =
    request_source_stop-IsConsistent s v b generation now
step-IsConsistent (submitted c now) s v = submit_candidate-IsConsistent s v now c

-- Any sequence of calls keeps the invariant of the sink, whether they return or raise and whatever
-- the port does. Always, the authority's fields fit its phase, a fault has disarmed the sink, and a
-- sink that is not synchronized has an idle authority and an empty wire. Until the sink is disarmed,
-- the awaited acknowledgement is that of the authority's pending zero, a handoff that is measured
-- has the evidence for its phase, and the first nonzero command is awaited only of the generation in
-- force, with its measurement. Once it is disarmed, also by the fault of a write, no handoff is
-- measured and no first nonzero command is awaited.
pub run-IsConsistent : (ms : List Method) (s : Sink) → IsConsistent s → IsConsistent (run ms s)
unfolding run
run-IsConsistent [] s v = v
run-IsConsistent (m ∷ ms) s v = run-IsConsistent ms (step m s) (step-IsConsistent m s v)
