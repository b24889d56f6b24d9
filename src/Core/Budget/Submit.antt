-- ===== src/Core/Budget/Submit.antt =====
-- The steps of an ACT segment of edge_runtime/resident_core.py, and the ends that it may come to.
use excavator_orin_runtime.Prelude.{
  ℕ, ◌+◌, ◌≡◌, sym, ◌⊎◌, inl, inr, Bool, true, false, Option, none, some, List, arith, Option-cases,
  Bool-cases, ◌||◌, leb,
}
use mathlib.Core.Path.{subst}
use excavator_orin_runtime.Prelude.Fault.{Outcome, Outcome-cases}
use excavator_orin_runtime.Motion.{Action, MotionCandidate}
use excavator_orin_runtime.Json.{Payload}
use excavator_orin_runtime.Protocol.{decode_motion_candidate}
use excavator_orin_runtime.Sink.{Sink, WriteResult}
use excavator_orin_runtime.Ingress.{Seat}
use excavator_orin_runtime.Ingress.Candidate as Candidate
use excavator_orin_runtime.Core.{Core, Tracker, act_binding, DeadzoneContract}
use excavator_orin_runtime.Core.Segment.{advance, budget_due, deadzone_chunk_due}
use excavator_orin_runtime.Core.Control.{submit_act, take_step}
use excavator_orin_runtime.Core.Calls.{act_sent, step}
use excavator_orin_runtime.Core.Calls.Refines.{step-By}
use excavator_orin_runtime.Core.Calls.Methods.{act_seat}
use excavator_orin_runtime.Core.Budget.{IsBudgeted, AtMost, Follows, Open}
use excavator_orin_runtime.Core.Budget.Facts.{accepts, send-accepts}
use excavator_orin_runtime.Core.Budget.Moves.{Moves, By-Moves, IsBudgeted-Moves, IsBudgeted-no_act}
use excavator_orin_runtime.Core.Budget.Adapters.{candidate_send_generation}
use excavator_orin_runtime.Core.Budget.Methods.{IsWithin}
use excavator_orin_runtime.Core.Budget.Segments.{Fits, IsWithin-Fits}

-- A segment that is not past and not due has a step left.
steps_left :
    (b g : Option ℕ) (n : ℕ) (s : Sink)
    → Follows (some s.authority.generation) g
    → s.disarmed ≡ false
    → Open b g n s
    → AtMost (n + 1) b
steps_left none g n s f d o = tt
steps_left (some b) none n s f d o = absurd f
steps_left (some b) (some g) n s f d o = ground (arith, f, o)

advanced-Open :
    (b g : Option ℕ) (n : ℕ) (early : Bool) (s : Sink)
    → ((budget_due b (n + 1) || early) ≡ true) ⊎ Open b g (n + 1) s
advanced-Open none g n early s = inr tt
advanced-Open (some b) none n early s = inr tt
advanced-Open (some b) (some g) n early s = elim (Bool-cases (leb b (n + 1))) [
  | inl h ↦ inl (ground arith)
  | inr h ↦ inr (inl (ground arith))
]

-- A step that the sink accepted.
advance-IsBudgeted :
    (t : Tracker) (rl : Option ℕ) (s : Sink) (r : WriteResult) (chunk : Option (List Action))
    (contract : Option DeadzoneContract) (chunk_steps min_steps : ℕ)
    → IsBudgeted t (some s.authority.generation) rl s
    → t.handoff_due ≡ false
    → s.synchronized ≡ true
    → s.disarmed ≡ false
    → IsBudgeted
        (advance t r chunk contract chunk_steps min_steps)
        (some s.authority.generation)
        rl
        s
unfolding advance
advance-IsBudgeted t rl s r chunk contract chunk_steps min_steps v h i d = record {
  positive = v.positive;
  within = elim v.ends [
    | inl e ↦ absurd (ground arith)
    | inr o ↦ steps_left t.max_steps t.generation t.completed_steps s v.follows d o
  ];
  begun = inr i;
  known = v.known;
  rl_known = v.rl_known;
  follows = v.follows;
  differs = v.differs;
  ends =
      advanced-Open t.max_steps t.generation t.completed_steps
        (deadzone_chunk_due t chunk contract chunk_steps min_steps) s;
}

module _ (p : Payload) (now : ℕ) (c : Core) where
  abbrev sent : Outcome WriteResult × Seat
  sent = Candidate.send act_binding p now (act_seat c)

  submit_state :
      ((submit_act p now c).1 ≡ c)
      ⊎ Fits (submit_act p now c).1 c.segment sent.1.adapter c.rl sent.1.sink
      ⊎ ((r : WriteResult) × (m : MotionCandidate) × (accepts sent.0 ≡ true)
          × (c.segment.handoff_due ≡ false)
          × Fits
              (submit_act p now c).1
              (advance c.segment r m.action_chunk c.contract c.chunk_steps c.min_steps)
              sent.1.adapter
              c.rl
              sent.1.sink)
  unfolding submit_act take_step
  submit_state = elim (Bool-cases c.segment.handoff_due) [
    | inl h ↦ inl (ground arith)
    | inr h ↦ elim (Outcome-cases sent.0) [
      | inr (x, k) ↦ inr (inl (ground arith))
      | inl (r, k) ↦ elim (Bool-cases r.is_accepted) [
        | inr a ↦ inr (inl (ground arith))
        | inl a ↦ elim (Option-cases c.segment.generation) [
          | inl e ↦ inr (inl (ground arith))
          | inr (g, e) ↦ elim (Outcome-cases (decode_motion_candidate p)) [
            | inr (x, d) ↦ inr (inl (ground arith))
            | inl (m, d) ↦ inr (inr (r, m, ground arith, h, ground arith))
          ]
        ]
      ]
    ]
  ]

  sent-Moves : (submit_act p now c).1.sink ≡ sent.1.sink → Moves c.sink sent.1.sink
  unfolding step
  sent-Moves e =
      subst (λ x. Moves c.sink x) e
        (By-Moves c.sink (submit_act p now c).1.sink (step-By (act_sent p now) c))

  -- The segment under the adapter that the send leaves.
  sent-IsBudgeted :
      (t : Tracker)
      → IsBudgeted t c.act.generation c.rl.generation sent.1.sink
      → IsBudgeted t sent.1.adapter.generation c.rl.generation sent.1.sink
  sent-IsBudgeted t v = elim (candidate_send_generation act_binding p now (act_seat c)) [
    | inr e ↦ rw e v
    | inl e ↦ rw e (IsBudgeted-no_act t c.act.generation c.rl.generation sent.1.sink v)
  ]

  pub submit_act-IsWithin : IsWithin c → IsWithin (submit_act p now c).1
  submit_act-IsWithin v = elim submit_state [
    | inl e ↦ rw e v
    | inr (inl f) ↦
        IsWithin-Fits (submit_act p now c).1 c.segment sent.1.adapter c.rl sent.1.sink f (
          sent-IsBudgeted c.segment (
            IsBudgeted-Moves c.segment c.act.generation c.rl.generation c.sink v sent.1.sink
              (sent-Moves f.sink)))
    | inr (inr (r, m, a, h, f)) ↦
        let t = advance c.segment r m.action_chunk c.contract c.chunk_steps c.min_steps in
        let (e, i, d) = send-accepts act_binding p now (act_seat c) a in
        let w =
          advance-IsBudgeted c.segment c.rl.generation c.sink r m.action_chunk c.contract
            c.chunk_steps c.min_steps
            (subst (λ x. IsBudgeted c.segment x c.rl.generation c.sink) e v) h i d in
        IsWithin-Fits (submit_act p now c).1 t sent.1.adapter c.rl sent.1.sink f (
          sent-IsBudgeted t (
            IsBudgeted-Moves t c.act.generation c.rl.generation c.sink
              (subst (λ x. IsBudgeted t x c.rl.generation c.sink) (sym e) w) sent.1.sink
              (sent-Moves f.sink)))
  ]
