-- ===== src/Sink/Observe/First.antt =====
-- The states that the echo of the first nonzero command leads to, in edge_runtime/resident_sink.py.
use excavator_orin_runtime.Prelude.{
  ℕ, List, ◌≡◌, ◌∙◌, ap, ◌⊎◌, inl, inr, Option, none, some, arith, Option-cases,
}
use excavator_orin_runtime.Motion.Authority as A
use excavator_orin_runtime.Motion.Authority.{Authority}
use excavator_orin_runtime.Sink.{Sink, Telemetry, FirstNonzero, Measurement, HandoffSample}
use excavator_orin_runtime.Sink.Writes.{cancel_measurement}
use excavator_orin_runtime.Sink.Observe.{take_first_nonzero}

-- The latency is recorded, then the evidence is dropped.
abbrev pub timed : Option ℕ → Sink → Sink
timed o s = record s { authority = record s.authority { last_latency_ns = o } }

abbrev pub sampled : List HandoffSample → Sink → Sink
sampled xs s = record (cancel_measurement s) { samples = xs }

latency_state :
    (g started completed : ℕ) (a : Authority)
    → (A.record_handoff_latency g started completed a).1 ≡ record a {
      last_latency_ns = (A.record_handoff_latency g started completed a).1.last_latency_ns;
    }
unfolding A.record_handoff_latency
latency_state g started completed a = ground arith

first_nonzero_taken :
    (p : FirstNonzero) (frame : Telemetry) (s : Sink) (m : Measurement)
    → s.measurement ≡ some m
    → let a =
        (A.record_handoff_latency m.generation m.terminal_zero_ack_ns frame.receive_ns
          s.authority).1 in
      let s' = (take_first_nonzero p frame s).1 in
      (s' ≡ s)
      ⊎ (s' ≡ record s { authority = a })
      ⊎ (s' ≡ sampled s'.samples (record s { authority = a }))
unfolding take_first_nonzero
first_nonzero_taken p frame s m e = ground arith

no_measurement :
    (p : FirstNonzero) (frame : Telemetry) (s : Sink)
    → s.measurement ≡ none
    → (take_first_nonzero p frame s).1 ≡ s
unfolding take_first_nonzero
no_measurement p frame s e = ground arith

pub take_first_nonzero_state :
    (p : FirstNonzero) (frame : Telemetry) (s : Sink)
    → ((take_first_nonzero p frame s).1 ≡ s)
      ⊎ ((o : Option ℕ) × (((take_first_nonzero p frame s).1 ≡ timed o s)
            ⊎ ((xs : List HandoffSample) × ((take_first_nonzero p frame s).1
                  ≡ sampled xs (timed o s)))))
take_first_nonzero_state p frame s = elim (Option-cases s.measurement) [
  | inl e ↦ inl (no_measurement p frame s e)
  | inr (m, e) ↦
      let xs = (take_first_nonzero p frame s).1.samples in
      let l = latency_state m.generation m.terminal_zero_ack_ns frame.receive_ns s.authority in
      elim (first_nonzero_taken p frame s m e) [
        | inl h ↦ inl h
        | inr (inl h) ↦ inr (_, inl (h ∙ ap (λ a. record s { authority = a }) l))
        | inr (inr h) ↦ inr (_, inr (xs, h ∙ ap (λ a. sampled xs (record s { authority = a })) l))
      ]
]
