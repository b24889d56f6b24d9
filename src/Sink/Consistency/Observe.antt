-- ===== src/Sink/Consistency/Observe.antt =====
-- The telemetry methods of edge_runtime/resident_sink.py and the invariant.
use excavator_orin_runtime.Prelude.{
  ℕ, ◌≡◌, refl, ◌∙◌, ◌⊎◌, inl, inr, Bool, true, false, Option, none, some, List, arith, Bool-cases,
}
use excavator_orin_runtime.Prelude.Fault.{Error, ok, raised}
use excavator_orin_runtime.Motion.{ControlMode, zero_action, PolicyBinding}
use excavator_orin_runtime.Motion.Authority as A
use excavator_orin_runtime.Motion.Authority.{Authority, Reason, unsafe_telemetry}
use excavator_orin_runtime.Motion.Authority.Coherence.{IsCoherent, acknowledge_zero-IsCoherent}
use excavator_orin_runtime.Sink.{Sink, Telemetry, PendingAck, FirstNonzero, HandoffSample}
use excavator_orin_runtime.Sink.Writes.{issue_pending_zero}
use excavator_orin_runtime.Sink.Observe.{
  ack_matches, first_nonzero_matches, settle_zero, take_ack, reissue, settle_first_nonzero,
  take_first_nonzero, check_safety, settle, observe_locked, is_older, observe_telemetry,
  invalidate_telemetry,
}
use excavator_orin_runtime.Sink.Observe.States.{
  acknowledged, take_ack_state, settle_zero-SameInput, settle_first_nonzero-SameInput, after_zero,
  after_first, settle_state, check_safety_state, audited, observe_locked_state,
  observe_telemetry_state, invalidate_telemetry_state, invalid_row, audited-Untouched,
}
use excavator_orin_runtime.Sink.Observe.First.{timed, sampled, take_first_nonzero_state}
use excavator_orin_runtime.Sink.Consistency.{
  IsConsistent, IsReady, pending_zero-cases, issue_pending_zero-IsConsistent,
}
use excavator_orin_runtime.Sink.Consistency.Requests.{revoke_for_safety-IsConsistent}

reissue_state :
    (now : ℕ) (s : Sink)
    → IsCoherent s.authority
    → ((A.pending_zero s.authority ≡ ok none) × ((reissue now s).1 ≡ s))
      ⊎ ((reissue now s).1 ≡ (issue_pending_zero now none s).1)
unfolding reissue
reissue_state now s v = elim (pending_zero-cases s.authority v) [
  | inl h ↦ inl (h, ground arith)
  | inr (z, h) ↦ inr (ground arith)
]

acknowledge_zero_raised :
    (g : ℕ) (m : ControlMode) (t : ℕ) (a : Authority) {e : Error}
    → (A.acknowledge_zero g m zero_action t a).0 ≡ raised e
    → (A.acknowledge_zero g m zero_action t a).1 ≡ a
unfolding A.acknowledge_zero
acknowledge_zero_raised g m t a h = ground arith

module _ (s : Sink) (v : IsConsistent s) where
  acknowledged-IsReady :
      (p : PendingAck) (frame : Telemetry)
      → s.synchronized ≡ true
      → s.disarmed ≡ false
      → s.pending_ack ≡ some p
      → s.latest_telemetry ≡ some frame
      → (A.acknowledge_zero p.generation p.mode zero_action frame.receive_ns s.authority).0 ≡ ok tt
      → IsReady (
          acknowledged
            (A.acknowledge_zero p.generation p.mode zero_action frame.receive_ns s.authority).1
            p
            frame
            s)
  unfolding A.acknowledge_zero A.pending_zero
  acknowledged-IsReady p frame i d e l h = record {
    coherent =
        acknowledge_zero-IsCoherent s.authority p.generation p.mode zero_action frame.receive_ns
          v.coherent;
    stopped = v.stopped;
    measures = λ _. ground (arith, v.measures d, v.mirrors d);
    awaits = λ _. ground (arith, v.awaits d, v.mirrors d);
    closed = λ h. absurd (ground (arith, d));
    started = i;
  }

  acknowledged-IsConsistent :
      (a : Authority) (p : PendingAck) (frame : Telemetry)
      → IsReady (acknowledged a p frame s)
      → IsConsistent (reissue frame.receive_ns (acknowledged a p frame s)).1
  acknowledged-IsConsistent a p frame r =
      elim (reissue_state frame.receive_ns (acknowledged a p frame s) r.coherent) [
        | inl (h, e) ↦ rw e (record {
          coherent = r.coherent;
          stopped = r.stopped;
          mirrors = λ _. h;
          measures = r.measures;
          awaits = r.awaits;
          closed = r.closed;
          at_start = ground (arith, r.started);
        })
        | inr e ↦
            rw e
              (issue_pending_zero-IsConsistent frame.receive_ns none (acknowledged a p frame s) r)
      ]

  take_ack-IsConsistent :
      (p : PendingAck) (frame : Telemetry)
      → s.synchronized ≡ true
      → s.disarmed ≡ false
      → s.pending_ack ≡ some p
      → s.latest_telemetry ≡ some frame
      → IsConsistent (take_ack p frame s).1
  take_ack-IsConsistent p frame i d e l = elim (take_ack_state p frame s) [
    | inl (x, h, k) ↦
        rw (k, acknowledge_zero_raised p.generation p.mode frame.receive_ns s.authority h) v
    | inr (h, k) ↦ rw k (
        acknowledged-IsConsistent
          (A.acknowledge_zero p.generation p.mode zero_action frame.receive_ns s.authority).1 p
          frame (acknowledged-IsReady p frame i d e l h))
  ]

  settle_zero-IsConsistent :
      (o : Option PendingAck) (frame : Telemetry)
      → s.synchronized ≡ true
      → s.disarmed ≡ false
      → s.pending_ack ≡ o
      → s.latest_telemetry ≡ some frame
      → IsConsistent (settle_zero o frame s).1
  unfolding settle_zero
  settle_zero-IsConsistent none frame i d e l = v
  settle_zero-IsConsistent (some p) frame i d e l = elim (Bool-cases (ack_matches s p frame)) [
    | inl m ↦ rw m (take_ack-IsConsistent p frame i d e l)
    | inr m ↦ rw m v
  ]

  timed-IsConsistent :
      (o : Option ℕ)
      → IsConsistent (record s { authority = record s.authority { last_latency_ns = o } })
  unfolding A.pending_zero
  timed-IsConsistent o = ground arith

  sampled-IsConsistent : (xs : List HandoffSample) → IsConsistent (sampled xs s)
  sampled-IsConsistent xs = ground arith

take_first_nonzero-IsConsistent :
    (p : FirstNonzero) (frame : Telemetry) (s : Sink)
    → IsConsistent s
    → IsConsistent (take_first_nonzero p frame s).1
take_first_nonzero-IsConsistent p frame s v = elim (take_first_nonzero_state p frame s) [
  | inl e ↦ rw e v
  | inr (o, inl e) ↦ rw e (timed-IsConsistent s v o)
  | inr (o, inr (xs, e)) ↦ rw e (sampled-IsConsistent (timed o s) (timed-IsConsistent s v o) xs)
]

module _ (s : Sink) (v : IsConsistent s) where
  settle_first_nonzero-IsConsistent :
      (o : Option FirstNonzero) (frame : Telemetry)
      → s.latest_telemetry ≡ some frame
      → IsConsistent (settle_first_nonzero o frame s).1
  unfolding settle_first_nonzero
  settle_first_nonzero-IsConsistent none frame l = v
  settle_first_nonzero-IsConsistent (some p) frame l =
      elim (Bool-cases (first_nonzero_matches p frame)) [
        | inl m ↦ rw m (take_first_nonzero-IsConsistent p frame s v)
        | inr m ↦ rw m v
      ]

  unlatched-IsConsistent : IsConsistent (record s { unsafe_zero_latched = false })
  unlatched-IsConsistent = ground arith

  check_safety-IsConsistent :
      (b : Option PolicyBinding) (frame : Telemetry)
      → s.synchronized ≡ true
      → IsConsistent (check_safety b frame s).1
  check_safety-IsConsistent b frame i = elim (check_safety_state frame s b) [
    | inl e ↦ rw e v
    | inr (inl e) ↦ rw e unlatched-IsConsistent
    | inr (inr e) ↦ rw e (revoke_for_safety-IsConsistent s v frame.receive_ns unsafe_telemetry i)
  ]

  audited-IsConsistent :
      (frame : Telemetry)
      → is_older frame s.latest_telemetry ≡ false
      → IsConsistent (audited frame s)
  audited-IsConsistent frame h = ground (arith, audited-Untouched frame s)

settle-IsConsistent :
    (frame : Telemetry) (s : Sink)
    → IsConsistent s
    → s.synchronized ≡ true
    → s.disarmed ≡ false
    → s.latest_telemetry ≡ some frame
    → IsConsistent (settle frame s).1
settle-IsConsistent frame s v i d l =
    let z = settle_zero-SameInput s.pending_ack frame s in
    let s1 = after_zero frame s in
    let v1 = settle_zero-IsConsistent s v s.pending_ack frame i d refl l in
    let f = settle_first_nonzero-SameInput s1.first_nonzero frame s1 in
    let v2 = settle_first_nonzero-IsConsistent s1 v1 s1.first_nonzero frame (z.telemetry ∙ l) in
    elim (settle_state frame s) [
      | inl e ↦ rw e v1
      | inr (inl e) ↦ rw e v2
      | inr (inr e) ↦ rw e (
          check_safety-IsConsistent (after_first frame s) v2
            (after_first frame s).authority.active_binding frame
            (f.synchronized ∙ z.synchronized ∙ i))
    ]

observe_locked-IsConsistent :
    (frame : Telemetry) (s : Sink)
    → IsConsistent s
    → s.synchronized ≡ true
    → IsConsistent (observe_locked frame s).1
observe_locked-IsConsistent frame s v i = elim (observe_locked_state frame s) [
  | inl e ↦ rw e v
  | inr (o, inl e) ↦ rw e (audited-IsConsistent s v frame o)
  | inr (o, inr (d, e)) ↦
      let u = audited-Untouched frame s in
      rw e (
        settle-IsConsistent frame (audited frame s) (audited-IsConsistent s v frame o)
          (u.synchronized ∙ i) d u.telemetry)
]

pub observe_telemetry-IsConsistent :
    (frame : Telemetry) (s : Sink) → IsConsistent s → IsConsistent (observe_telemetry frame s).1
observe_telemetry-IsConsistent frame s v = elim (observe_telemetry_state frame s) [
  | inl e ↦ rw e v
  | inr (i, e) ↦ rw e (observe_locked-IsConsistent frame s v i)
]

pub invalidate_telemetry-IsConsistent :
    (now : ℕ) (alive : Bool) (s : Sink)
    → IsConsistent s
    → IsConsistent (invalidate_telemetry now alive s).1
invalidate_telemetry-IsConsistent now alive s v = elim (invalidate_telemetry_state now alive s) [
  | inl e ↦ rw e v
  | inr (i, f, e) ↦ rw e (observe_locked-IsConsistent (invalid_row f now alive) s v i)
]
