-- ===== src/Sink/Writes/Effects.antt =====
-- What the writes of edge_runtime/resident_sink.py change, and what they leave alone.
use excavator_orin_runtime.Prelude.{
  ℕ, ◌+◌, ◌≡◌, ◌⊎◌, inl, inr, Bool, true, false, Option, none, some, ◌∷◌, arith, is_some,
  Option-cases,
}
use excavator_orin_runtime.Prelude.Fault.{Error, ok, raised, Outcome-cases}
use excavator_orin_runtime.Motion.{ControlMode, Action, zero_action}
use excavator_orin_runtime.Motion.Authority.{PendingZero, Reason, pending_zero}
use excavator_orin_runtime.Commands.{Frame, encode, mask32}
use excavator_orin_runtime.Commands.Codec.{
  frame_mode, frame_action, frame_seq, encode_reads_back, encode_raised,
}
use excavator_orin_runtime.Sink.{Sink, WriteResult, PendingAck}
use excavator_orin_runtime.Sink.Writes.{write_locked, issue, reason_or, issue_pending_zero}

-- All but the port, the encoder, the pending acknowledgement and the evidence.
pub record SameControl (s s' : Sink) : Type 0 where
  pub authority : s'.authority ≡ s.authority
  pub telemetry : s'.latest_telemetry ≡ s.latest_telemetry
  pub lease : s'.candidate_lease ≡ s.candidate_lease
  pub measurement : s'.measurement ≡ s.measurement
  pub first : s'.first_nonzero ≡ s.first_nonzero
  pub synchronized : s'.synchronized ≡ s.synchronized
  pub latch : s'.unsafe_zero_latched ≡ s.unsafe_zero_latched
  pub disarmed : s'.disarmed ≡ s.disarmed
  pub error : s'.terminal_error ≡ s.terminal_error
  pub age : s'.max_state_age_ns ≡ s.max_state_age_ns

-- A write that failed: the sink has stopped for good.
pub record Halted (s s' : Sink) : Type 0 where
  pub telemetry : s'.latest_telemetry ≡ s.latest_telemetry
  pub authority : s'.authority ≡ s.authority
  pub synchronized : s'.synchronized ≡ s.synchronized
  pub disarmed : s'.disarmed ≡ true
  pub error : is_some s'.terminal_error ≡ true
  pub measurement : s'.measurement ≡ none
  pub first : s'.first_nonzero ≡ none

-- A frame with this mode and action was handed to the port under the next sequence number.
pub record Handed (m : ControlMode) (a : Action) (s s' : Sink) : Type 0 where
  pub frame : Frame
  pub wire : s'.port.wire ≡ frame ∷ s.port.wire
  pub mode : frame_mode frame ≡ m
  pub action : frame_action frame ≡ a
  pub seq : frame_seq frame ≡ s.encoder.next_sequence
  pub next : s'.encoder.next_sequence ≡ mask32 (s.encoder.next_sequence + 1)

abbrev pub written : ControlMode → Action → Reason → Bool → ℕ → WriteResult
written m a r acc n = record {
  is_accepted = acc;
  write_performed = true;
  reason = r;
  command_seq = some n;
  mode = some m;
  effective_action = a;
}

module _ (m : ControlMode) (a : Action) (now : ℕ) (r : Reason) (acc : Bool) (s : Sink) where
  -- A write returns and leaves the control state alone, or raises and stops the sink for good.
  pub write_locked_effect :
      (((write_locked m a now r acc s).0 ≡ ok (written m a r acc s.encoder.next_sequence))
        × SameControl s (write_locked m a now r acc s).1
        × ((write_locked m a now r acc s).1.pending_ack ≡ s.pending_ack))
      ⊎ ((e : Error) × ((write_locked m a now r acc s).0 ≡ raised e)
          × Halted s (write_locked m a now r acc s).1)
  unfolding write_locked
  write_locked_effect = elim (Outcome-cases (write_locked m a now r acc s).0) [
    | inl (w, h) ↦ inl (ground arith, ground arith, ground arith)
    | inr (e, h) ↦ inr (e, h, ground arith)
  ]

  -- Nothing but the encoder refuses a frame, and then nothing is handed to the port.
  pub write_locked-Handed :
      (((write_locked m a now r acc s).1.port.wire ≡ s.port.wire)
        × ((write_locked m a now r acc s).1.encoder ≡ s.encoder))
      ⊎ Handed m a s (write_locked m a now r acc s).1
  unfolding write_locked
  write_locked-Handed = elim (Outcome-cases (encode m a now s.encoder).0) [
    | inr (e, h) ↦ inl (ground (arith, encode_raised m a now s.encoder h))
    | inl (f, h) ↦ inr (record {
      frame = f;
      wire = ground arith;
      mode = (encode_reads_back m a now s.encoder h).0;
      action = (encode_reads_back m a now s.encoder h).1;
      seq = (encode_reads_back m a now s.encoder h).2;
      next = ground (arith, (encode_reads_back m a now s.encoder h).3);
    })
  ]

-- The zero that was issued is awaited.
abbrev pub awaited : PendingZero → ℕ → PendingAck
awaited z n = record {
  generation = z.generation;
  mode = z.mode;
  purpose = z.purpose;
  command_seq = n;
}

module _ (reason : Option Reason) (now : ℕ) (z : PendingZero) (s : Sink) where
  pub issue_effect :
      (((issue reason now (some z) s).0
          ≡ ok (
              some (
                written z.mode zero_action
                  (reason_or reason z.purpose)
                  false
                  s.encoder.next_sequence)))
        × SameControl s (issue reason now (some z) s).1
        × ((issue reason now (some z) s).1.pending_ack ≡ some (awaited z s.encoder.next_sequence)))
      ⊎ ((e : Error) × ((issue reason now (some z) s).0 ≡ raised e)
          × Halted s (issue reason now (some z) s).1)
  unfolding issue
  issue_effect =
      elim (write_locked_effect z.mode zero_action now (reason_or reason z.purpose) false s) [
        | inl (w, same, p) ↦ inl (ground arith, ground arith, ground arith)
        | inr (e, w, h) ↦ inr (e, ground arith, ground arith)
      ]

-- What no write touches: whether the sink is synchronized, and the telemetry.
pub record SameInput (s s' : Sink) : Type 0 where
  pub synchronized : s'.synchronized ≡ s.synchronized
  pub telemetry : s'.latest_telemetry ≡ s.latest_telemetry

pub issue_pending_zero-SameInput :
    (now : ℕ) (reason : Option Reason) (s : Sink) → SameInput s (issue_pending_zero now reason s).1
unfolding issue_pending_zero
issue_pending_zero-SameInput now reason s = elim (Outcome-cases (pending_zero s.authority)) [
  | inr (e, h) ↦ ground arith
  | inl (o, h) ↦ elim (Option-cases o) [
    | inl n ↦ ground arith
    | inr (z, n) ↦ elim (issue_effect reason now z s) [
      | inl (w, same, p) ↦ ground arith
      | inr (e, w, halted) ↦ ground arith
    ]
  ]
]
