-- ===== src/Core/Budget/Segments.antt =====
-- The methods of edge_runtime/resident_core.py that change an ACT segment, and its budget.
use excavator_orin_runtime.Prelude.{ℕ, ◌≡◌, refl, ◌⊎◌, inl, inr, true, false, Option, arith}
use excavator_orin_runtime.Prelude.Fault.{Error, ok, raised, Outcome-cases}
use excavator_orin_runtime.Sink.{Sink, Telemetry}
use excavator_orin_runtime.Sink.Observe as Observe
use excavator_orin_runtime.Sink.History as History
use excavator_orin_runtime.Ingress.{Adapter, begin_activation}
use excavator_orin_runtime.Core.{Core, Tracker, not_due, rl_binding}
use excavator_orin_runtime.Core.Control.{observe_telemetry, complete_segment}
use excavator_orin_runtime.Core.Calls.{observed, By-one, observes, completes}
use excavator_orin_runtime.Core.Calls.Methods.{rl_seat}
use excavator_orin_runtime.Core.Budget.{IsBudgeted}
use excavator_orin_runtime.Core.Budget.Moves.{By-Moves, IsBudgeted-Moves, IsBudgeted-undue}
use excavator_orin_runtime.Core.Budget.Adapters.{activation-Activated}
use excavator_orin_runtime.Core.Budget.Methods.{
  IsWithin, IsWithin-raised, activated_by, rl-Open, rl-IsBudgeted,
}

abbrev completed : Tracker → Tracker
completed t = record t { complete = true; handoff_due = false }

completed-IsBudgeted :
    (t : Tracker) (act rl : Option ℕ) (s : Sink)
    → IsBudgeted (not_due t) act rl s
    → IsBudgeted (completed t) act rl s
completed-IsBudgeted t act rl s v = record {
  positive = v.positive;
  within = v.within;
  begun = v.begun;
  known = v.known;
  rl_known = v.rl_known;
  follows = v.follows;
  differs = v.differs;
  ends = v.ends;
}

-- A core that has seen the frame, before its segment is looked at.
abbrev seen : Telemetry → Core → Core
seen f c = record c { sink = (Observe.observe_telemetry f c.sink).1 }

-- The fields of a core that bear on the budget.
pub record Fits (c : Core) (t : Tracker) (act rl : Adapter) (s : Sink) : Type 0 where
  pub segment : c.segment ≡ t
  pub act_adapter : c.act ≡ act
  pub rl_adapter : c.rl ≡ rl
  pub sink : c.sink ≡ s

pub IsWithin-Fits :
    (c : Core) (t : Tracker) (act rl : Adapter) (s : Sink)
    → Fits c t act rl s
    → IsBudgeted t act.generation rl.generation s
    → IsWithin c
IsWithin-Fits c t act rl s f v = rw (f.segment, f.act_adapter, f.rl_adapter, f.sink) v

module _ (f : Telemetry) (c : Core) where
  observe_returned :
      (g : ℕ)
      → (begin_activation rl_binding f.receive_ns (rl_seat (seen f c))).0 ≡ ok g
      → let s' = (begin_activation rl_binding f.receive_ns (rl_seat (seen f c))).1 in
        Fits (observe_telemetry f c).1 c.segment c.act c.rl (seen f c).sink
        ⊎ Fits (observe_telemetry f c).1 (completed c.segment) c.act s'.adapter s'.sink
  unfolding observe_telemetry complete_segment
  observe_returned g h = ground arith

  observe_raised :
      (x : Error)
      → (begin_activation rl_binding f.receive_ns (rl_seat (seen f c))).0 ≡ raised x
      → let s' = (begin_activation rl_binding f.receive_ns (rl_seat (seen f c))).1 in
        Fits (observe_telemetry f c).1 c.segment c.act c.rl (seen f c).sink
        ⊎ Fits (observe_telemetry f c).1 c.segment c.act s'.adapter s'.sink
  unfolding observe_telemetry complete_segment
  observe_raised x h = ground arith

  seen-IsWithin : IsWithin c → IsWithin (seen f c)
  unfolding History.step
  seen-IsWithin v =
      IsBudgeted-Moves c.segment c.act.generation c.rl.generation c.sink v (seen f c).sink (
        By-Moves c.sink (seen f c).sink
          (By-one (observed f) c.sink (seen f c).sink (History.observed f) (observes f) refl))

  pub observe-IsWithin : IsWithin c → IsWithin (observe_telemetry f c).1
  observe-IsWithin v =
      let w = seen-IsWithin v in
      let s = rl_seat (seen f c) in
      let o = begin_activation rl_binding f.receive_ns s in
      elim (Outcome-cases o.0) [
        | inl (g, h) ↦ elim (observe_returned g h) [
          | inl e ↦ IsWithin-Fits (observe_telemetry f c).1 c.segment c.act c.rl (seen f c).sink e w
          | inr e ↦
              let a = activation-Activated rl_binding f.receive_ns s g h in
              let m = activated_by (observed f) rl_binding f.receive_ns s (completes f) in
              IsWithin-Fits (observe_telemetry f c).1 (completed c.segment) c.act o.1.adapter
                o.1.sink e
                (completed-IsBudgeted c.segment c.act.generation o.1.adapter.generation o.1.sink (
                  IsBudgeted-undue c.segment c.act.generation o.1.adapter.generation o.1.sink
                    (rw a.adapter (rl-IsBudgeted c.segment c.act.generation s o.1 g w m a))
                    (rl-Open c.segment c.act.generation s o.1 g w a)))
        ]
        | inr (x, h) ↦ elim (observe_raised x h) [
          | inl e ↦ IsWithin-Fits (observe_telemetry f c).1 c.segment c.act c.rl (seen f c).sink e w
          | inr e ↦
              IsWithin-Fits (observe_telemetry f c).1 c.segment c.act o.1.adapter o.1.sink e (
                IsWithin-raised rl_binding (observed f) f.receive_ns (seen f c) x w (completes f) h)
        ]
      ]
