-- ===== src/Ingress/Candidate.antt =====
-- `ResidentPolicyCandidateAdapter` of edge_runtime/resident_ingress.py: typed candidates, as ACT's.
use excavator_orin_runtime.Prelude.{ℕ, not, Option, none, some, if◌then◌else◌, ◌==◌, str_eq}
use excavator_orin_runtime.Prelude.Fault.{
  Error, Outcome, ok, raised, value_error, runtime_error, worker_not_activated, source_mismatch,
  mode_mismatch,
}
use excavator_orin_runtime.Motion.{mode_eq, PolicyBinding, MotionCandidate}
use excavator_orin_runtime.Motion.Authority.{stale_generation}
use excavator_orin_runtime.Json.{Payload}
use excavator_orin_runtime.Protocol.{decode_motion_candidate}
use excavator_orin_runtime.Sink.{WriteResult}
use excavator_orin_runtime.Sink.Requests.{not_written}
use excavator_orin_runtime.Sink.Submit.{submit_candidate}
use excavator_orin_runtime.Ingress.{Seat, in_sink, revoke}

-- A candidate of the current generation, which may revoke it.
send_current : PolicyBinding → ℕ → MotionCandidate → ℕ → Seat → Outcome WriteResult × Seat
send_current b generation c now s =
    if not (str_eq c.source b.source)
    then revoke b generation now (value_error source_mismatch) s
    else if not (mode_eq c.mode b.mode)
    then revoke b generation now (value_error mode_mismatch) s
    else in_sink (submit_candidate c now) s

send_candidate : PolicyBinding → ℕ → MotionCandidate → ℕ → Seat → Outcome WriteResult × Seat
unfolding send_current
send_candidate b generation c now s =
    if c.generation == generation
    then send_current b generation c now s
    else (ok (not_written stale_generation (some b.mode)), s)

candidate_fault : PolicyBinding → ℕ → ℕ → Error → Seat → Outcome WriteResult × Seat
candidate_fault b generation now (value_error f) s = revoke b generation now (value_error f) s
candidate_fault b generation now e s = (raised e, s)

send_decoded : PolicyBinding → ℕ → ℕ → Outcome MotionCandidate → Seat → Outcome WriteResult × Seat
unfolding send_candidate candidate_fault
send_decoded b generation now (raised e) s = candidate_fault b generation now e s
send_decoded b generation now (ok c) s = send_candidate b generation c now s

send_as : Option ℕ → PolicyBinding → Payload → ℕ → Seat → Outcome WriteResult × Seat
unfolding send_decoded
send_as none b p now s = (raised (runtime_error worker_not_activated), s)
send_as (some generation) b p now s = send_decoded b generation now (decode_motion_candidate p) s

-- `ResidentPolicyCandidateAdapter.send` at the monotonic time of the call.
unfoldable pub send : PolicyBinding → Payload → ℕ → Seat → Outcome WriteResult × Seat
unfolding send_as
send b p now s = send_as s.adapter.generation b p now s
