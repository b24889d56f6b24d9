-- ===== src/Core/Calls/Seats.antt =====
-- What the adapters of edge_runtime/resident_ingress.py do to the sink that they were given.
use excavator_orin_runtime.Prelude.{
  ℕ, ◌+◌, ◌*◌, ◌≡◌, ◌⊎◌, inl, inr, none, Option-cases, arith, Bool-cases, str_eq, strip, ◌==◌,
}
use excavator_orin_runtime.Prelude.Fault.{value_error, ok, Outcome-cases}
use excavator_orin_runtime.Motion.{
  PolicyBinding, MotionCandidate, motion_candidate, checked_chunk, mode_eq,
}
use excavator_orin_runtime.Json.{Payload}
use excavator_orin_runtime.Protocol.{decode_motion_candidate}
use excavator_orin_runtime.Sink.Requests as Requests
use excavator_orin_runtime.Sink.Submit.{submit_candidate}
use excavator_orin_runtime.Ingress.{Seat, begin_activation, request_stop, revoke}
use excavator_orin_runtime.Ingress.Velocity as Velocity
use excavator_orin_runtime.Ingress.Velocity.{VelocityAction, decode_velocity_action}
use excavator_orin_runtime.Ingress.Candidate as Candidate

pub begin_activation_sink :
    (b : PolicyBinding) (now : ℕ) (s : Seat)
    → ((begin_activation b now s).1.sink ≡ s.sink)
      ⊎ ((begin_activation b now s).1.sink ≡ (Requests.request_handoff b now s.sink).1)
unfolding begin_activation
begin_activation_sink b now s = ground arith

pub request_stop_sink :
    (b : PolicyBinding) (now : ℕ) (s : Seat)
    → ((request_stop b now s).1.sink ≡ s.sink)
      ⊎ ((g : ℕ) × ((request_stop b now s).1.sink
            ≡ (Requests.request_source_stop b g now s.sink).1))
unfolding request_stop
request_stop_sink b now s = elim (Option-cases s.adapter.generation) [
  | inl e ↦ inl (ground arith)
  | inr (g, e) ↦ inr (g, ground arith)
]

velocity_candidate :
    (b : PolicyBinding) (g now : ℕ) (v : VelocityAction) {c : MotionCandidate}
    → motion_candidate b.source g b.mode v.action now (now + v.remaining_lease_ms * 1000000) none
      ≡ ok c
    → (c.source ≡ strip b.source) × (c.mode ≡ b.mode)
unfolding motion_candidate checked_chunk
velocity_candidate b g now v h = ground arith

pub velocity_send_sink :
    (b : PolicyBinding) (p : Payload) (now wall : ℕ) (s : Seat)
    → ((Velocity.send b p now wall s).1.sink ≡ s.sink)
      ⊎ ((g : ℕ) × ((Velocity.send b p now wall s).1.sink
            ≡ (Requests.request_source_stop b g now s.sink).1))
      ⊎ ((c : MotionCandidate) × (c.source ≡ strip b.source)
          × (c.mode ≡ b.mode)
          × ((Velocity.send b p now wall s).1.sink ≡ (submit_candidate c now s.sink).1))
unfolding Velocity.send revoke
velocity_send_sink b p now wall s = elim (Option-cases s.adapter.generation) [
  | inl e ↦ inl (ground arith)
  | inr (g, e) ↦ elim (Outcome-cases (decode_velocity_action p wall s.adapter.last_sequence)) [
    | inr (value_error f, h) ↦ inr (inl (g, ground arith))
    | inr (_, h) ↦ inl (ground arith)
    | inl (v, h) ↦
        elim (Outcome-cases (
          motion_candidate b.source g b.mode v.action now (now + v.remaining_lease_ms * 1000000)
            none)) [
              | inr (x, k) ↦ inl (ground arith)
              | inl (c, k) ↦
                  let (src, mode) = velocity_candidate b g now v k in
                  inr (inr (c, src, mode, ground arith))
            ]
  ]
]

pub candidate_send_sink :
    (b : PolicyBinding) (p : Payload) (now : ℕ) (s : Seat)
    → ((Candidate.send b p now s).1.sink ≡ s.sink)
      ⊎ ((g : ℕ) × ((Candidate.send b p now s).1.sink
            ≡ (Requests.request_source_stop b g now s.sink).1))
      ⊎ ((c : MotionCandidate) × (decode_motion_candidate p ≡ ok c)
          × ((Candidate.send b p now s).1.sink ≡ (submit_candidate c now s.sink).1))
unfolding Candidate.send revoke
candidate_send_sink b p now s = elim (Option-cases s.adapter.generation) [
  | inl e ↦ inl (ground arith)
  | inr (g, e) ↦ elim (Outcome-cases (decode_motion_candidate p)) [
    | inr (value_error f, h) ↦ inr (inl (g, ground arith))
    | inr (_, h) ↦ inl (ground arith)
    | inl (c, h) ↦ elim (Bool-cases (c.generation == g)) [
      | inr i ↦ inl (ground arith)
      | inl i ↦ elim (Bool-cases (str_eq c.source b.source)) [
        | inr j ↦ inr (inl (g, ground arith))
        | inl j ↦ elim (Bool-cases (mode_eq c.mode b.mode)) [
          | inr k ↦ inr (inl (g, ground arith))
          | inl k ↦ inr (inr (c, h, ground arith))
        ]
      ]
    ]
  ]
]
