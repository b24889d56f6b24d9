-- ===== src/Core/Lease/Soundness.antt =====
-- What the methods of edge_runtime/resident_core.py do to the mission lease and to the disarm.
use excavator_orin_runtime.Prelude.{
  ℕ, ◌≡◌, ◌∙◌, ap, sym, ◌⊎◌, inl, inr, true, Option, none, arith, is_some, Option-cases,
}
use excavator_orin_runtime.Prelude.Fault.{ok, Outcome-cases}
use excavator_orin_runtime.Sink.{Sink, WriteResult}
use excavator_orin_runtime.Sink.Requests as Requests
use excavator_orin_runtime.Sink.Consistency.Requests.{terminal_disarm-IsConsistent}
use excavator_orin_runtime.Sink.History as History
use excavator_orin_runtime.Sink.History.{run-IsConsistent}
use excavator_orin_runtime.Sink.History.Stopped.{disarmed_for_good}
use excavator_orin_runtime.Sink.History.Started.{run_synchronized, step_synchronized}
use excavator_orin_runtime.Core.{Core}
use excavator_orin_runtime.Core.Control.{
  observe_telemetry, activate_rl, activate_act, submit_act, notify_act_worker_disconnected,
  terminal_disarm, complete_segment, take_step,
}
use excavator_orin_runtime.Core.Calls.{Method, disarmed, step, By}
use excavator_orin_runtime.Core.Calls.Refines.{step-By}
use excavator_orin_runtime.Core.Lease.{IsSound, sink_disarms, disarm_returns}

-- Neither the lease nor the disarm is touched.
pub record Kept (c c' : Core) : Type 0 where
  pub lease : c'.lease_deadline_ns ≡ c.lease_deadline_ns
  pub result : c'.disarm_result ≡ c.disarm_result

module _ (c : Core) where
  pub Kept-observe : (f : _) → Kept c (observe_telemetry f c).1
  unfolding observe_telemetry complete_segment
  Kept-observe f = ground arith

  pub Kept-activate_rl : (now : ℕ) → Kept c (activate_rl now c).1
  unfolding activate_rl
  Kept-activate_rl now = ground arith

  pub Kept-activate_act : (steps : Option ℕ) (now : ℕ) → Kept c (activate_act steps now c).1
  unfolding activate_act
  Kept-activate_act steps now = ground arith

  pub Kept-submit_act : (p : _) (now : ℕ) → Kept c (submit_act p now c).1
  unfolding submit_act take_step
  Kept-submit_act p now = ground arith

  pub Kept-worker_lost : (now : ℕ) → Kept c (notify_act_worker_disconnected now c).1
  unfolding notify_act_worker_disconnected
  Kept-worker_lost now = elim (Option-cases c.segment.generation) [
    | inl e ↦ ground arith
    | inr (g, e) ↦ ground arith
  ]

  -- The lease and the disarm that a disarm leaves.
  disarm_fields :
      (now : ℕ)
      → Kept c (terminal_disarm now c).1
        ⊎ (((terminal_disarm now c).1.lease_deadline_ns ≡ none)
            × ((terminal_disarm now c).1.sink ≡ (Requests.terminal_disarm now c.sink).1)
            × (((terminal_disarm now c).1.disarm_result ≡ none)
                ⊎ ((r : WriteResult) × ((Requests.terminal_disarm now c.sink).0 ≡ ok r))))
  unfolding terminal_disarm
  disarm_fields now = elim (Option-cases c.disarm_result) [
    | inr (r, e) ↦ inl (ground arith)
    | inl e ↦ elim (Outcome-cases (Requests.terminal_disarm now c.sink).0) [
      | inl (r, h) ↦ inr (ground arith, ground arith, inr (r, h))
      | inr (x, h) ↦ inr (ground arith, ground arith, inl (ground arith))
    ]
  ]

pub Kept-IsSound :
    {m : Method} {c c' : Core} → By m c.sink c'.sink → Kept c c' → IsSound c → IsSound c'
Kept-IsSound {m} {c} {c'} b k v = record {
  consistent = rw b.result (run-IsConsistent b.calls c.sink v.consistent);
  leased =
      λ l. rw b.result (run_synchronized b.calls c.sink (v.leased (sym (ap is_some k.lease) ∙ l)));
  ended = λ r.
      let (i, d) = v.ended (sym (ap is_some k.result) ∙ r) in
      (
        rw b.result (run_synchronized b.calls c.sink i),
        rw b.result (disarmed_for_good b.calls c.sink i d).disarmed,
      );
}

disarm-By : (now : ℕ) (c : Core) → By (disarmed now) c.sink (terminal_disarm now c).1.sink
unfolding step
disarm-By now c = step-By (disarmed now) c

disarm_synchronized :
    (now : ℕ) (s : Sink)
    → s.synchronized ≡ true
    → (Requests.terminal_disarm now s).1.synchronized ≡ true
unfolding History.step
disarm_synchronized now s i = step_synchronized (History.disarmed now) s i

-- A disarm keeps the core sound.
pub terminal_disarm-IsSound : (c : Core) → IsSound c → (now : ℕ) → IsSound (terminal_disarm now c).1
terminal_disarm-IsSound c v now = elim (disarm_fields c now) [
  | inl k ↦ Kept-IsSound (disarm-By now c) k v
  | inr (l, e, r) ↦ record {
    consistent = rw e (terminal_disarm-IsConsistent c.sink v.consistent now);
    leased = λ h. absurd (some_is_not_none l h);
    ended = λ h. elim r [
      | inl n ↦ absurd (some_is_not_none n h)
      | inr (_, o) ↦
          let i = disarm_returns now c.sink o in
          (rw e (disarm_synchronized now c.sink i), rw e (sink_disarms now c.sink v.consistent i))
    ];
  }
]
  where
    some_is_not_none : {A : Type 0} {o : Option A} → o ≡ none → is_some o ≡ true → ⊥
    some_is_not_none n h = ground arith
