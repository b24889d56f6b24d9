-- ===== src/Sink/Consistency.antt =====
-- The invariant of the sink of edge_runtime/resident_sink.py.
pub mod Requests
pub mod Observe
pub mod Submit
use excavator_orin_runtime.Prelude.{
  ℕ, ◌+◌, ◌≤◌, ◌≡◌, refl, ◌∙◌, ap, ◌⊎◌, inl, inr, Bool, true, false, Option, none, some, List, [],
  arith, is_some, is_empty, Option-cases,
}
use excavator_orin_runtime.Prelude.Fault.{Error, Outcome, ok, raised, Outcome-cases}
use excavator_orin_runtime.Motion.{
  ControlMode, Action, idle, target_zero_pending, active, PolicyBinding, policy_binding,
}
use excavator_orin_runtime.Motion.Authority as A
use excavator_orin_runtime.Motion.Authority.{Authority, PendingZero, Reason}
use excavator_orin_runtime.Motion.Authority.Coherence.{
  IsCoherent, pending_zero_total, request_handoff-IsCoherent, request_stop-IsCoherent,
  acknowledge_zero-IsCoherent, record_handoff_latency-IsCoherent,
}
use excavator_orin_runtime.Sink.{
  Telemetry, PendingAck, Measurement, FirstNonzero, Sink, PortOutcome, Port, write_frame, new_sink,
}
use excavator_orin_runtime.Sink.Writes.Effects.{
  SameControl, Halted, write_locked_effect, issue_effect,
}
use excavator_orin_runtime.Sink.Writes.{write_locked, issue_pending_zero, revoke_for_safety}
use excavator_orin_runtime.Sink.Requests.{
  request_handoff, request_stop, request_source_stop, terminal_disarm, initialize,
}

-- The acknowledgement that is awaited is the one for the authority's pending zero.
abbrev pub Mirrors : Option PendingAck → Authority → Type 0
Mirrors none a = A.pending_zero a ≡ ok none
Mirrors (some p) a =
    A.pending_zero a
    ≡ ok (some (record { generation = p.generation; mode = p.mode; purpose = p.purpose }))

abbrev pub SeenBy : Option Telemetry → ℕ → Type 0
SeenBy none t = ⊥
SeenBy (some f) t = t ≤ f.receive_ns

-- A measurement is of the current generation, from its terminal zero on; once its target is in
-- force it has the evidence of both zeros.
abbrev pub Measures : Option Measurement → Sink → Type 0
Measures none s = Unit
Measures (some m) s =
    (m.generation ≡ s.authority.generation)
    × ((s.authority.phase ≡ target_zero_pending)
        ⊎ ((s.authority.phase ≡ active)
            × (is_some m.target_zero_seq ≡ true)
            × (is_some m.target_zero_ack_ns ≡ true)))
    × SeenBy s.latest_telemetry m.terminal_zero_ack_ns

abbrev pub Awaits : Option FirstNonzero → Sink → Type 0
Awaits none s = Unit
Awaits (some p) s =
    (p.generation ≡ s.authority.generation)
    × (s.authority.phase ≡ active)
    × (is_some s.measurement ≡ true)

pub record IsConsistent (s : Sink) : Type 0 where
  pub coherent : IsCoherent s.authority
  pub stopped : is_some s.terminal_error ≡ true → s.disarmed ≡ true
  pub mirrors : s.disarmed ≡ false → Mirrors s.pending_ack s.authority
  pub measures : s.disarmed ≡ false → Measures s.measurement s
  pub awaits : s.disarmed ≡ false → Awaits s.first_nonzero s
  pub closed : s.disarmed ≡ true → (s.measurement ≡ none) × (s.first_nonzero ≡ none)
  pub at_start : s.synchronized ≡ false → (s.authority.phase ≡ idle) × (s.port.wire ≡ [])

-- All of the invariant but the pending acknowledgement, as between a change of the authority and
-- the zero that it calls for.
pub record IsReady (s : Sink) : Type 0 where
  pub coherent : IsCoherent s.authority
  pub stopped : is_some s.terminal_error ≡ true → s.disarmed ≡ true
  pub measures : s.disarmed ≡ false → Measures s.measurement s
  pub awaits : s.disarmed ≡ false → Awaits s.first_nonzero s
  pub closed : s.disarmed ≡ true → (s.measurement ≡ none) × (s.first_nonzero ≡ none)
  pub started : s.synchronized ≡ true

pub pending_zero-cases :
    (a : Authority)
    → IsCoherent a
    → (A.pending_zero a ≡ ok none) ⊎ ((z : PendingZero) × (A.pending_zero a ≡ ok (some z)))
pending_zero-cases a v = elim (Outcome-cases (A.pending_zero a)) [
  | inr (e, h) ↦ absurd (pending_zero_total a e v h)
  | inl (o, h) ↦ elim (Option-cases o) [
    | inl n ↦ inl (h ∙ ap ok n)
    | inr (z, n) ↦ inr (z, h ∙ ap ok n)
  ]
]

module _ (now : ℕ) (reason : Option Reason) (s : Sink) (v : IsReady s) where
  -- The zero that a change of the authority calls for restores the invariant, also where its write
  -- raises.
  pub issue_pending_zero-IsConsistent : IsConsistent (issue_pending_zero now reason s).1
  unfolding issue_pending_zero
  issue_pending_zero-IsConsistent = elim (pending_zero-cases s.authority v.coherent) [
    | inl h ↦ ground arith
    | inr (z, h) ↦ elim (issue_effect reason now z s) [
      | inl (w, same, p) ↦ ground arith
      | inr (e, w, halted) ↦ ground arith
    ]
  ]
