-- ===== src/ControlPlane/Client/Agreement.antt =====
-- The client of edge_runtime/resident_control.py and the answers of the server.
use mathlib.Core.Path.{subst}
use excavator_orin_runtime.Prelude.{
  ℕ, ◌≡◌, refl, String, Bool, false, not, Option, none, some, arith, str_eq, is_empty, inl, inr,
}
use excavator_orin_runtime.Prelude.Float.{Float}
use excavator_orin_runtime.Prelude.Fault.{Outcome, ok, raised, Outcome-cases}
use excavator_orin_runtime.Json.{Json, field, has_fields}
use excavator_orin_runtime.Protocol.{lookup}
use excavator_orin_runtime.FixedCycle.Ensures.{split_reading, test-passed}
use excavator_orin_runtime.Core.{Core}
use excavator_orin_runtime.Core.Control.{ControlSnapshot, control_status_snapshot}
use excavator_orin_runtime.ControlPlane.{
  Command, read_command, Request, Status, uint64, optional, nonnegative, segment_max_steps, binding,
  exceeds, in_ms, status_of,
}
use excavator_orin_runtime.ControlPlane.Server.{
  Response, success, failure, Probes, Gate, Clock, Settings, answer, answered, obey, execute,
  respond, request_of, serve_one,
}
use excavator_orin_runtime.ControlPlane.Encode.{
  optional_value, binding_value, number_value, float_value, status_value_of, command_value,
  response_value,
}
use excavator_orin_runtime.ControlPlane.Client.{
  read_flag, read_uint64, read_segment_steps, read_latency, read_binding, read_optional,
  validate_status, validate_error, read_message, successful, failed, by_flag, validate_response,
}
use excavator_orin_runtime.ControlPlane.Client.Fields.{
  phase-reads, command-reads, code-reads, ok-injective, uint64_fixed, number-reads, steps-read,
  latency-reads, bindings-read,
}

-- What the checks of a status establish.
record Checked (s : Status) : Type 0 where
  generation : uint64 s.control_generation ≡ ok s.control_generation
  latency :
      read_optional read_latency (optional_value float_value s.last_handoff_latency_ms)
      ≡ ok s.last_handoff_latency_ms
  most :
      read_optional read_segment_steps (optional_value number_value s.act_segment_max_steps)
      ≡ ok s.act_segment_max_steps
  done : uint64 s.act_segment_completed_steps ≡ ok s.act_segment_completed_steps
  fits : exceeds s.act_segment_completed_steps s.act_segment_max_steps ≡ false
  current :
      read_optional read_binding (optional_value binding_value s.active_binding)
      ≡ ok s.active_binding
  target :
      read_optional read_binding (optional_value binding_value s.target_binding)
      ≡ ok s.target_binding
  segment :
      read_optional read_uint64 (optional_value number_value s.act_segment_generation)
      ≡ ok s.act_segment_generation

status_of-Checked :
    (ns_to_ms : ℕ → Float) (c : ControlSnapshot) (ready : Bool) {s : Status}
    → status_of ns_to_ms c ready ≡ ok s
    → Checked s
unfolding status_of
status_of-Checked ns_to_ms c ready h =
    let (generation, h1, e1) = split_reading (uint64 c.motion.generation) _ h in
    let (latency, h2, e2) =
      split_reading (optional nonnegative (in_ms ns_to_ms c.motion.last_latency_ns)) _ h1 in
    let (most, h3, e3) = split_reading (optional segment_max_steps c.segment.max_steps) _ h2 in
    let (done, h4, e4) = split_reading (uint64 c.segment.completed_steps) _ h3 in
    let (fits, h5) = test-passed (not (exceeds done most)) _ _ h4 in
    let (current, h6, e6) = split_reading (optional binding c.motion.active_binding) _ h5 in
    let (target, h7, e7) = split_reading (optional binding c.motion.target_binding) _ h6 in
    let (segment, h8, e8) = split_reading (optional uint64 c.segment.generation) _ h7 in
    subst Checked (ok-injective h8) (record {
      generation = uint64_fixed c.motion.generation e1;
      latency = latency-reads (in_ms ns_to_ms c.motion.last_latency_ns) latency e2;
      most = steps-read c.segment.max_steps most e3;
      done = uint64_fixed c.segment.completed_steps e4;
      fits = ground arith;
      current = bindings-read c.motion.active_binding current e6;
      target = bindings-read c.motion.target_binding target e7;
      segment = number-reads c.segment.generation segment e8;
    })

status-reads : (s : Status) → Checked s → validate_status (status_value_of s) ≡ ok s
unfolding validate_status lookup field str_eq has_fields read_flag read_uint64
status-reads s v =
    rw
      (
        phase-reads s.phase,
        v.latency,
        v.most,
        v.done,
        v.fits,
        v.generation,
        v.current,
        v.target,
        v.segment,
      )
      refl

-- A response that the server can give.
abbrev Sent : Response → Type 0
Sent (success c s) = Checked s
Sent (failure c code) = Unit

command-reads_optional : (c : Option Command) → read_optional read_command (command_value c) ≡ ok c
unfolding read_optional
command-reads_optional none = refl
command-reads_optional (some c) = rw (command-reads c) refl

response-reads :
    (message : String) (r : Response)
    → is_empty message ≡ false
    → Sent r
    → validate_response (response_value message r) ≡ ok r
unfolding validate_response lookup field str_eq has_fields read_flag by_flag successful failed
    validate_error read_message read_optional
response-reads message (success c s) h v = rw (command-reads c, status-reads s v) refl
response-reads message (failure c code) h v = rw (command-reads_optional c, code-reads code, h) refl

answer-Sent :
    (command : Command) (o : Outcome Status)
    → ((s : Status) → o ≡ ok s → Checked s)
    → Sent (answer command o)
answer-Sent command (ok s) h = h s refl
answer-Sent command (raised e) h = tt

module _ (s : Settings) (g : Gate) (p : Probes) (t : Clock) where
  execute-Checked :
      (r : Request) (c : Core) (st : Status) → (execute s g p t r c).0 ≡ ok st → Checked st
  unfolding execute
  execute-Checked r c st h = elim (Outcome-cases (obey s g p t r.command r.max_steps c).0) [
    | inl (u, e) ↦
        let q = rw e at h in
        status_of-Checked s.ns_to_ms
          (control_status_snapshot t.at_status (obey s g p t r.command r.max_steps c).1)
          (answered p.act_worker_ready) q
    | inr (x, e) ↦ absurd (let q = rw e at h in cc)
  ]

  respond-Sent : (r : Outcome Request) (c : Core) → Sent (respond s g p t r c).0
  unfolding respond
  respond-Sent (raised e) c = tt
  respond-Sent (ok r) c = answer-Sent r.command (execute s g p t r c).0 (execute-Checked r c)

-- The client accepts every response of the server and reads from it what the server answered: the
-- command, the status of the core, or the code of the error. The message of an error is any that
-- is not empty.
pub validate_response-serve :
    (s : Settings) (g : Gate) (p : Probes) (t : Clock) (frame : Option Json) (c : Core)
    (message : String)
    → is_empty message ≡ false
    → validate_response (response_value message (serve_one s g p t frame c).0)
      ≡ ok (serve_one s g p t frame c).0
unfolding serve_one
validate_response-serve s g p t frame c message h =
    response-reads message (respond s g p t (request_of frame) c).0 h
      (respond-Sent s g p t (request_of frame) c)
