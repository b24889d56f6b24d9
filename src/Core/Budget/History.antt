-- ===== src/Core/Budget/History.antt =====
-- Any history of edge_runtime/resident_core.py's core, and the budget of an ACT segment.
use excavator_orin_runtime.Prelude.{
  ℕ, ◌≡◌, refl, ap, ◌⊎◌, inl, inr, true, false, Option, none, some, List, [], ◌∷◌, arith,
  Option-cases, Bool-cases,
}
use excavator_orin_runtime.Prelude.Fault.{ok, Outcome-cases}
use excavator_orin_runtime.Sink.{Sink}
use excavator_orin_runtime.Sink.Requests as Requests
use excavator_orin_runtime.Sink.Consistency.{IsConsistent}
use excavator_orin_runtime.Core.{
  Core, not_due, act_binding, rl_binding, new_core, fresh_core, positive, DeadzoneContract,
}
use excavator_orin_runtime.Core.Control.{
  initialize, invalidate_telemetry, submit_rl, stop_rl, notify_act_worker_disconnected,
  terminal_disarm,
}
use excavator_orin_runtime.Core.Calls.{
  Method, initialized, observed, invalidated, rl_activated, rl_stopped, rl_sent, act_activated,
  act_sent, worker_lost, renewed, ticked, disarmed, step, run,
}
use excavator_orin_runtime.Core.Calls.Refines.{step-By}
use excavator_orin_runtime.Core.Calls.Methods.{rl_seat}
use excavator_orin_runtime.Core.Lease.{IsSound, sink_disarms}
use excavator_orin_runtime.Core.Lease.Expiry.{
  step-IsSound, tick_state, renew_state, without_lease, without_lease-IsSound,
}
use excavator_orin_runtime.Core.Budget.{AtMost}
use excavator_orin_runtime.Core.Budget.Facts.{source_stop_returns}
use excavator_orin_runtime.Core.Budget.Moves.{
  By-Moves, IsBudgeted-Moves, IsBudgeted-undue, Open-past, Open-disarmed, Open-begins,
}
use excavator_orin_runtime.Core.Budget.Adapters.{velocity_send_generation, stop_generation}
use excavator_orin_runtime.Core.Budget.Methods.{IsWithin, IsWithin-kept, activate_rl-IsWithin}
use excavator_orin_runtime.Core.Budget.Segments.{Fits, IsWithin-Fits, observe-IsWithin}
use excavator_orin_runtime.Core.Budget.Act.{activate_act-IsWithin}
use excavator_orin_runtime.Core.Budget.Submit.{submit_act-IsWithin}

module _ (now : ℕ) (c : Core) where
  lost_state :
      let s' = (notify_act_worker_disconnected now c).1.sink in
      Fits (notify_act_worker_disconnected now c).1 c.segment c.act c.rl s'
      ⊎ ((g : ℕ) × (c.segment.generation ≡ some g)
          × ((Requests.request_source_stop act_binding g now c.sink).0 ≡ ok true)
          × (s' ≡ (Requests.request_source_stop act_binding g now c.sink).1)
          × Fits (notify_act_worker_disconnected now c).1 (not_due c.segment) c.act c.rl s')
  unfolding notify_act_worker_disconnected
  lost_state = elim (Option-cases c.segment.generation) [
    | inl e ↦ inl (ground arith)
    | inr (g, e) ↦ elim (Bool-cases (Requests.is_operational c.sink)) [
      | inr o ↦ inl (ground arith)
      | inl o ↦ elim (Outcome-cases (Requests.request_source_stop act_binding g now c.sink).0) [
        | inr (x, h) ↦ inl (ground arith)
        | inl (false, h) ↦ inl (ground arith)
        | inl (true, h) ↦ inr (g, e, h, ground arith, ground arith)
      ]
    ]
  ]

  lost-IsWithin : IsWithin c → IsWithin (notify_act_worker_disconnected now c).1
  unfolding step
  lost-IsWithin v =
      let c' = (notify_act_worker_disconnected now c).1 in
      let m = By-Moves c.sink c'.sink (step-By (worker_lost now) c) in
      let w = IsBudgeted-Moves c.segment c.act.generation c.rl.generation c.sink v c'.sink m in
      elim lost_state [
        | inl f ↦ IsWithin-Fits c' c.segment c.act c.rl c'.sink f w
        | inr (g, e, h, k, f) ↦
            let r = source_stop_returns act_binding g now c.sink h in
            IsWithin-Fits c' (not_due c.segment) c.act c.rl c'.sink f (
              IsBudgeted-undue c.segment c.act.generation c.rl.generation c'.sink w (
                Open-past c.segment.max_steps c.segment.generation c.segment.completed_steps
                  c.sink.authority.generation c'.sink v.known (ground (arith, r, k))))
      ]

  disarm_fields :
      let s' = (terminal_disarm now c).1.sink in
      Fits (terminal_disarm now c).1 c.segment c.act c.rl s'
      ⊎ ((s' ≡ (Requests.terminal_disarm now c.sink).1)
          × Fits (terminal_disarm now c).1 (not_due c.segment) c.act c.rl s')
  unfolding terminal_disarm
  disarm_fields = ground arith

  disarm-IsWithin : IsSound c → IsWithin c → IsWithin (terminal_disarm now c).1
  unfolding step
  disarm-IsWithin u v =
      let c' = (terminal_disarm now c).1 in
      let m = By-Moves c.sink c'.sink (step-By (disarmed now) c) in
      let w = IsBudgeted-Moves c.segment c.act.generation c.rl.generation c.sink v c'.sink m in
      elim disarm_fields [
        | inl f ↦ IsWithin-Fits c' c.segment c.act c.rl c'.sink f w
        | inr (k, f) ↦ IsWithin-Fits c' (not_due c.segment) c.act c.rl c'.sink f (
            IsBudgeted-undue c.segment c.act.generation c.rl.generation c'.sink w (elim v.begun [
              | inl z ↦
                  Open-begins c.segment.max_steps c.segment.generation c.segment.completed_steps
                    c'.sink v.positive z
              | inr i ↦
                  Open-disarmed c.segment.max_steps c.segment.generation c.segment.completed_steps
                    c'.sink (rw k (sink_disarms now c.sink u.consistent i))
            ]))
      ]

-- A method that leaves the segment and the ACT adapter alone.
kept-by :
    (m : Method) (c : Core)
    → IsWithin c
    → (step m c).segment ≡ c.segment
    → (step m c).act ≡ c.act
    → ((step m c).rl.generation ≡ none) ⊎ ((step m c).rl.generation ≡ c.rl.generation)
    → IsWithin (step m c)
kept-by m c v t a r =
    IsWithin-kept c (step m c) v (By-Moves c.sink (step m c).sink (step-By m c)) t
      (inr (ap (λ x. x.generation) a)) r

-- Every method of a sound core keeps its segment within the budget.
step-IsWithin : (m : Method) (c : Core) → IsSound c → IsWithin c → IsWithin (step m c)
unfolding step initialize invalidate_telemetry submit_rl stop_rl
step-IsWithin (initialized f) c u v = kept-by (initialized f) c v refl refl (inr refl)
step-IsWithin (observed f) c u v = observe-IsWithin f c v
step-IsWithin (invalidated now alive) c u v =
    kept-by (invalidated now alive) c v refl refl (inr refl)
step-IsWithin (rl_activated now) c u v = activate_rl-IsWithin now c v
step-IsWithin (rl_stopped now) c u v =
    kept-by (rl_stopped now) c v refl refl (stop_generation rl_binding now (rl_seat c))
step-IsWithin (rl_sent p now wall) c u v =
    kept-by (rl_sent p now wall) c v refl refl
      (velocity_send_generation rl_binding p now wall (rl_seat c))
step-IsWithin (act_activated steps now) c u v = activate_act-IsWithin steps now c v
step-IsWithin (act_sent p now) c u v = submit_act-IsWithin p now c v
step-IsWithin (worker_lost now) c u v = lost-IsWithin now c v
step-IsWithin (renewed lease now) c u v = elim (renew_state c lease now) [
  | inl e ↦ rw e v
  | inr (inl e) ↦ rw e (disarm-IsWithin now c u v)
  | inr (inr (_, e)) ↦ rw e v
]
step-IsWithin (ticked now) c u v = elim (tick_state c now) [
  | inl (_, e) ↦ rw e (disarm-IsWithin now (without_lease c) (without_lease-IsSound c u) v)
  | inr (_, e) ↦ kept-by (ticked now) c v (rw e refl) (rw e refl) (inr (rw e refl))
]
step-IsWithin (disarmed now) c u v = disarm-IsWithin now c u v

run-IsWithin : (ms : List Method) (c : Core) → IsSound c → IsWithin c → IsWithin (run ms c)
unfolding run
run-IsWithin [] c u v = v
run-IsWithin (m ∷ ms) c u v =
    run-IsWithin ms (step m c) (step-IsSound m c u) (step-IsWithin m c u v)

new_core-fresh :
    (contract : Option DeadzoneContract) (chunk_steps min_steps : ℕ) (s : Sink) (c : Core)
    → new_core contract chunk_steps min_steps s ≡ ok c
    → c ≡ fresh_core contract chunk_steps min_steps s
unfolding new_core positive
new_core-fresh contract chunk_steps min_steps s c h = ground arith

fresh_core-IsSound :
    (contract : Option DeadzoneContract) (chunk_steps min_steps : ℕ) (s : Sink)
    → IsConsistent s
    → IsSound (fresh_core contract chunk_steps min_steps s)
fresh_core-IsSound contract chunk_steps min_steps s v = record {
  consistent = v;
  leased = λ h. absurd (ground (arith, h));
  ended = λ h. absurd (ground (arith, h));
}

fresh_core-IsWithin :
    (contract : Option DeadzoneContract) (chunk_steps min_steps : ℕ) (s : Sink)
    → IsWithin (fresh_core contract chunk_steps min_steps s)
fresh_core-IsWithin contract chunk_steps min_steps s = record {
  positive = tt;
  within = tt;
  begun = inl refl;
  known = tt;
  rl_known = tt;
  follows = tt;
  differs = tt;
  ends = inr tt;
}

-- In any history of a core that was built over a consistent sink, the ACT segment never has taken
-- more steps than its budget, if it has one.
pub segment_within_budget :
    (contract : Option DeadzoneContract) (chunk_steps min_steps : ℕ) (s : Sink) (c : Core)
    (ms : List Method)
    → IsConsistent s
    → new_core contract chunk_steps min_steps s ≡ ok c
    → AtMost (run ms c).segment.completed_steps (run ms c).segment.max_steps
segment_within_budget contract chunk_steps min_steps s c ms v h =
    let k = fresh_core contract chunk_steps min_steps s in
    rw (new_core-fresh contract chunk_steps min_steps s c h)
      (run-IsWithin ms k (fresh_core-IsSound contract chunk_steps min_steps s v)
        (fresh_core-IsWithin contract chunk_steps min_steps s)).within
