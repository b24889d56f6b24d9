-- ===== src/Sink/Observe/States.antt =====
-- The states that the telemetry methods of edge_runtime/resident_sink.py lead to.
use excavator_orin_runtime.Prelude.{
  ℕ, ◌≡◌, refl, ◌⊎◌, inl, inr, Bool, true, false, Option, none, some, arith, Option-cases,
  Bool-cases,
}
use excavator_orin_runtime.Prelude.Fault.{Error, ok, raised, Outcome-cases}
use excavator_orin_runtime.Motion.{ControlMode, zero_action, PolicyBinding}
use excavator_orin_runtime.Motion.Authority as A
use excavator_orin_runtime.Motion.Authority.{Authority, Reason, unsafe_telemetry}
use excavator_orin_runtime.Sink.{Sink, Telemetry, PendingAck, FirstNonzero}
use excavator_orin_runtime.Sink.Writes.{issue_pending_zero, revoke_for_safety}
use excavator_orin_runtime.Sink.Writes.Effects.{SameInput, issue_pending_zero-SameInput}
use excavator_orin_runtime.Sink.Observe.{
  ack_matches, settle_zero, take_ack, reissue, evidence_after, settle_first_nonzero, check_safety,
  settle, accept_frame, observe_locked, audit_ack, is_older, observe_telemetry,
  invalidate_telemetry,
}

-- All but the audit.
pub record Untouched (s s' : Sink) : Type 0 where
  pub port : s'.port ≡ s.port
  pub encoder : s'.encoder ≡ s.encoder
  pub authority : s'.authority ≡ s.authority
  pub telemetry : s'.latest_telemetry ≡ s.latest_telemetry
  pub pending : s'.pending_ack ≡ s.pending_ack
  pub measurement : s'.measurement ≡ s.measurement
  pub first : s'.first_nonzero ≡ s.first_nonzero
  pub synchronized : s'.synchronized ≡ s.synchronized
  pub disarmed : s'.disarmed ≡ s.disarmed
  pub error : s'.terminal_error ≡ s.terminal_error

-- The state after the authority took an acknowledgement.
abbrev pub acknowledged : Authority → PendingAck → Telemetry → Sink → Sink
acknowledged a p frame s = record s {
  authority = a;
  measurement = evidence_after s.authority p frame (record s { authority = a });
  pending_ack = none;
}

pub take_ack_state :
    (p : PendingAck) (frame : Telemetry) (s : Sink)
    → let m = A.acknowledge_zero p.generation p.mode zero_action frame.receive_ns s.authority in
      (((e : Error) × (m.0 ≡ raised e) × ((take_ack p frame s).1 ≡ record s { authority = m.1 }))
        ⊎ ((m.0 ≡ ok tt)
            × ((take_ack p frame s).1 ≡ (reissue frame.receive_ns (acknowledged m.1 p frame s)).1)))
unfolding take_ack
take_ack_state p frame s =
    elim (Outcome-cases
      (A.acknowledge_zero p.generation p.mode zero_action frame.receive_ns s.authority).0) [
        | inl (u, h) ↦ inr (h, ground arith)
        | inr (e, h) ↦ inl (e, h, ground arith)
      ]

-- The blocks of an observation leave the telemetry alone.
pub take_ack-SameInput :
    (p : PendingAck) (frame : Telemetry) (s : Sink) → SameInput s (take_ack p frame s).1
unfolding take_ack reissue
take_ack-SameInput p frame s = ground (
  arith,
  issue_pending_zero-SameInput frame.receive_ns none (
      acknowledged
        (A.acknowledge_zero p.generation p.mode zero_action frame.receive_ns s.authority).1 p frame
        s),
)

pub settle_zero-SameInput :
    (o : Option PendingAck) (frame : Telemetry) (s : Sink) → SameInput s (settle_zero o frame s).1
unfolding settle_zero
settle_zero-SameInput none frame s = record { synchronized = refl; telemetry = refl }
settle_zero-SameInput (some p) frame s = elim (Bool-cases (ack_matches s p frame)) [
  | inl m ↦ rw m (take_ack-SameInput p frame s)
  | inr m ↦ rw m (record { synchronized = refl; telemetry = refl })
]

pub settle_first_nonzero-SameInput :
    (o : Option FirstNonzero) (frame : Telemetry) (s : Sink)
    → SameInput s (settle_first_nonzero o frame s).1
unfolding settle_first_nonzero
settle_first_nonzero-SameInput none frame s = record { synchronized = refl; telemetry = refl }
settle_first_nonzero-SameInput (some p) frame s = ground arith

module _ (frame : Telemetry) (s : Sink) where
  -- The states between the three blocks.
  abbrev pub after_zero : Sink
  after_zero = (settle_zero s.pending_ack frame s).1

  abbrev pub after_first : Sink
  after_first = (settle_first_nonzero after_zero.first_nonzero frame after_zero).1

  pub settle_state :
      ((settle frame s).1 ≡ after_zero)
      ⊎ ((settle frame s).1 ≡ after_first)
      ⊎ ((settle frame s).1
          ≡ (check_safety after_first.authority.active_binding frame after_first).1)
  unfolding settle
  settle_state = elim (Outcome-cases (settle_zero s.pending_ack frame s).0) [
    | inr (e, h) ↦ inl (ground arith)
    | inl (u, h) ↦
        elim (Outcome-cases (settle_first_nonzero after_zero.first_nonzero frame after_zero).0) [
          | inr (e, k) ↦ inr (inl (ground arith))
          | inl (w, k) ↦ inr (inr (ground arith))
        ]
  ]

  pub check_safety_state :
      (b : Option PolicyBinding)
      → ((check_safety b frame s).1 ≡ s)
        ⊎ ((check_safety b frame s).1 ≡ record s { unsafe_zero_latched = false })
        ⊎ ((check_safety b frame s).1 ≡ (revoke_for_safety frame.receive_ns unsafe_telemetry s).1)
  unfolding check_safety
  check_safety_state none = inl refl
  check_safety_state (some b) = ground arith

  -- The state that has taken the frame in and audited its acknowledgement.
  abbrev pub audited : Sink
  audited = (audit_ack frame frame.control_mode (record s { latest_telemetry = some frame })).1

  audit_ack_returns : (o : Option ControlMode) (t : Sink) → (audit_ack frame o t).0 ≡ ok tt
  unfolding audit_ack
  audit_ack_returns none t = refl
  audit_ack_returns (some m) t = ground arith

  accept_frame_state :
      ((accept_frame frame s).1 ≡ audited)
      ⊎ ((audited.disarmed ≡ false) × ((accept_frame frame s).1 ≡ (settle frame audited).1))
  unfolding accept_frame
  accept_frame_state =
      ground
        (arith, audit_ack_returns frame.control_mode (record s { latest_telemetry = some frame }))

  pub observe_locked_state :
      ((observe_locked frame s).1 ≡ s)
      ⊎ ((is_older frame s.latest_telemetry ≡ false)
          × (((observe_locked frame s).1 ≡ audited)
              ⊎ ((audited.disarmed ≡ false)
                  × ((observe_locked frame s).1 ≡ (settle frame audited).1))))
  unfolding observe_locked
  observe_locked_state = elim (Bool-cases (is_older frame s.latest_telemetry)) [
    | inl e ↦ inl (rw e)
    | inr e ↦ inr (e, rw e accept_frame_state)
  ]

  pub observe_telemetry_state :
      ((observe_telemetry frame s).1 ≡ s)
      ⊎ ((s.synchronized ≡ true) × ((observe_telemetry frame s).1 ≡ (observe_locked frame s).1))
  unfolding observe_telemetry
  observe_telemetry_state = ground arith

  audit_ack-Untouched : (o : Option ControlMode) (t : Sink) → Untouched t (audit_ack frame o t).1
  unfolding audit_ack
  audit_ack-Untouched none t = ground arith
  audit_ack-Untouched (some m) t = ground arith

  -- Taking a frame in changes the telemetry and the audit only.
  pub audited-Untouched : Untouched (record s { latest_telemetry = some frame }) audited
  audited-Untouched =
      audit_ack-Untouched frame.control_mode (record s { latest_telemetry = some frame })

-- The previous telemetry as an invalid row leaves it.
abbrev pub invalid_row : Telemetry → ℕ → Bool → Telemetry
invalid_row f now alive = record f { receive_ns = now; sensor_valid = false; stm32_alive = alive }

pub invalidate_telemetry_state :
    (now : ℕ) (alive : Bool) (s : Sink)
    → ((invalidate_telemetry now alive s).1 ≡ s)
      ⊎ ((s.synchronized ≡ true)
          × (f : Telemetry) × ((invalidate_telemetry now alive s).1
              ≡ (observe_locked (invalid_row f now alive) s).1))
unfolding invalidate_telemetry
invalidate_telemetry_state now alive s = elim (Option-cases s.latest_telemetry) [
  | inl e ↦ inl (ground arith)
  | inr (f, e) ↦ elim (Bool-cases s.synchronized) [
    | inl i ↦ inr (i, f, ground arith)
    | inr i ↦ inl (ground arith)
  ]
]

pub reissue_either :
    (now : ℕ) (s : Sink)
    → ((reissue now s).1 ≡ s) ⊎ ((reissue now s).1 ≡ (issue_pending_zero now none s).1)
unfolding reissue
reissue_either now s = elim (Outcome-cases (A.pending_zero s.authority)) [
  | inr (e, h) ↦ inl (ground arith)
  | inl (o, h) ↦ elim (Option-cases o) [
    | inl n ↦ inl (ground arith)
    | inr (z, n) ↦ inr (ground arith)
  ]
]

-- The echo of a first command writes nothing.
pub first_nonzero_port :
    (o : Option FirstNonzero) (frame : Telemetry) (s : Sink)
    → ((settle_first_nonzero o frame s).1.port ≡ s.port)
      × ((settle_first_nonzero o frame s).1.encoder ≡ s.encoder)
unfolding settle_first_nonzero
first_nonzero_port none frame s = (refl, refl)
first_nonzero_port (some p) frame s = ground arith
