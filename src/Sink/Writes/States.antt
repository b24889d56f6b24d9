-- ===== src/Sink/Writes/States.antt =====
-- The states that issuing a zero leads to, in edge_runtime/resident_sink.py.
use excavator_orin_runtime.Prelude.{ℕ, ◌≡◌, ◌∙◌, ◌⊎◌, inl, inr, false, Option, none, some, arith}
use excavator_orin_runtime.Prelude.Fault.{Outcome-cases}
use excavator_orin_runtime.Motion.{zero_action}
use excavator_orin_runtime.Motion.Authority.{PendingZero, Reason, pending_zero}
use excavator_orin_runtime.Sink.{Sink, PendingAck}
use excavator_orin_runtime.Sink.Writes.{write_locked, issue, reason_or, issue_pending_zero}
use excavator_orin_runtime.Sink.Writes.Effects.{awaited, write_locked_effect}

abbrev pub awaiting : Option PendingAck → Sink → Sink
awaiting p s = record s { pending_ack = p }

module _ (reason : Option Reason) (now : ℕ) (s : Sink) where
  abbrev pub zero_written : PendingZero → Sink
  zero_written z = (write_locked z.mode zero_action now (reason_or reason z.purpose) false s).1

  issue_state :
      (z : PendingZero)
      → ((issue reason now (some z) s).1 ≡ zero_written z)
        ⊎ ((issue reason now (some z) s).1
            ≡ awaiting (some (awaited z s.encoder.next_sequence)) (zero_written z))
  unfolding issue
  issue_state z =
      elim (write_locked_effect z.mode zero_action now (reason_or reason z.purpose) false s) [
        | inl (w, same, p) ↦ inr (ground arith)
        | inr (e, w, halted) ↦ inl (ground arith)
      ]

  issues :
      ((issue_pending_zero now reason s).1 ≡ s)
      ⊎ ((o : Option PendingZero) × ((issue_pending_zero now reason s).1
            ≡ (issue reason now o s).1))
  unfolding issue_pending_zero
  issues = elim (Outcome-cases (pending_zero s.authority)) [
    | inl (o, h) ↦ inr (o, ground arith)
    | inr (e, h) ↦ inl (ground arith)
  ]

  issue-none : (issue reason now none s).1 ≡ awaiting none s
  unfolding issue
  issue-none = ground arith

  issued :
      (o : Option PendingZero)
      → ((issue reason now o s).1 ≡ awaiting none s)
        ⊎ ((z : PendingZero) × (((issue reason now o s).1 ≡ zero_written z)
              ⊎ ((p : PendingAck) × ((issue reason now o s).1
                    ≡ awaiting (some p) (zero_written z)))))
  issued none = inl issue-none
  issued (some z) = elim (issue_state z) [ inl e ↦ inr (z, inl e) | inr e ↦ inr (z, inr (_, e)) ]

  pub issue_pending_zero_state :
      ((issue_pending_zero now reason s).1 ≡ s)
      ⊎ ((issue_pending_zero now reason s).1 ≡ awaiting none s)
      ⊎ ((z : PendingZero) × (((issue_pending_zero now reason s).1 ≡ zero_written z)
            ⊎ ((p : PendingAck) × ((issue_pending_zero now reason s).1
                  ≡ awaiting (some p) (zero_written z)))))
  issue_pending_zero_state = elim issues [
    | inl e ↦ inl e
    | inr (o, e) ↦ elim (issued o) [
      | inl f ↦ inr (inl (e ∙ f))
      | inr (z, inl f) ↦ inr (inr (z, inl (e ∙ f)))
      | inr (z, inr (p, f)) ↦ inr (inr (z, inr (p, e ∙ f)))
    ]
  ]
