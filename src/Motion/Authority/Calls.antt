-- ===== src/Motion/Authority/Calls.antt =====
-- Sequences of calls on edge_runtime/resident_motion.py's authority.
use excavator_orin_runtime.Prelude.{ℕ, ◌+◌, ◌≤◌, Option, none, some, List, [], ◌∷◌, arith}
use excavator_orin_runtime.Prelude.Fault.{Outcome, ok, raised}
use excavator_orin_runtime.Motion.{ControlMode, Action, PolicyBinding}
use excavator_orin_runtime.Motion.Authority.{
  Authority, request_handoff, request_stop, acknowledge_zero, record_handoff_latency,
}
use excavator_orin_runtime.Motion.Authority.Coherence.{
  IsCoherent, request_handoff-IsCoherent, request_stop-IsCoherent, acknowledge_zero-IsCoherent,
  record_handoff_latency-IsCoherent,
}

-- The calls that change an authority.
pub data Call : Type 0 where
  handoff : PolicyBinding → ℕ → Call
  stop : ℕ → Call
  acknowledge : ℕ → ControlMode → Action → ℕ → Call
  latency : ℕ → ℕ → ℕ → Call

unfoldable pub step : Call → Authority → Authority
step (handoff b now) s = (request_handoff b now s).1
step (stop now) s = (request_stop now s).1
step (acknowledge g m a t) s = (acknowledge_zero g m a t s).1
step (latency g started completed) s = (record_handoff_latency g started completed s).1

abbrev pub acknowledged : Outcome (Unit {0}) → ControlMode → Option ControlMode
acknowledged (ok _) m = some m
acknowledged (raised e) m = none

-- The mode of the zero that a call acknowledges, if the authority takes it.
abbrev pub zero_taken : Call → Authority → Option ControlMode
zero_taken (handoff b now) s = none
zero_taken (stop now) s = none
zero_taken (acknowledge g m a t) s = acknowledged (acknowledge_zero g m a t s).0 m
zero_taken (latency g started completed) s = none

unfoldable pub run : List Call → Authority → Authority
run [] s = s
run (c ∷ cs) s = run cs (step c s)

abbrev pub push_taken : Option ControlMode → List ControlMode → List ControlMode
push_taken none ms = ms
push_taken (some m) ms = m ∷ ms

-- The modes of the zeros that a sequence of calls gets acknowledged, oldest first.
unfoldable pub zeros_taken : List Call → Authority → List ControlMode
zeros_taken [] s = []
zeros_taken (c ∷ cs) s = push_taken (zero_taken c s) (zeros_taken cs (step c s))

pub step-IsCoherent : (c : Call) (s : Authority) → IsCoherent s → IsCoherent (step c s)
unfolding step
step-IsCoherent (handoff b now) s h = request_handoff-IsCoherent s b now h
step-IsCoherent (stop now) s h = request_stop-IsCoherent s now h
step-IsCoherent (acknowledge g m a t) s h = acknowledge_zero-IsCoherent s g m a t h
step-IsCoherent (latency g started completed) s h =
    record_handoff_latency-IsCoherent s g started completed h

pub run-IsCoherent : (cs : List Call) (s : Authority) → IsCoherent s → IsCoherent (run cs s)
unfolding run
run-IsCoherent [] s h = h
run-IsCoherent (c ∷ cs) s h = run-IsCoherent cs (step c s) (step-IsCoherent c s h)

-- Generations only grow, by one with each handoff or stop, so an old one never returns.
pub step-generation :
    (c : Call) (s : Authority)
    → (s.generation ≤ (step c s).generation) × ((step c s).generation ≤ s.generation + 1)
unfolding step request_handoff request_stop acknowledge_zero record_handoff_latency
step-generation (handoff b now) s = ground arith
step-generation (stop now) s = ground arith
step-generation (acknowledge g m a t) s = ground arith
step-generation (latency g started completed) s = ground arith

-- No sequence of calls on the authority makes its generation smaller, those that raise included.
pub run-generation : (cs : List Call) (s : Authority) → s.generation ≤ (run cs s).generation
unfolding run
run-generation [] s = omega arith
run-generation (c ∷ cs) s = omega (arith, step-generation c s, run-generation cs (step c s))
