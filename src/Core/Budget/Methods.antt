-- ===== src/Core/Budget/Methods.antt =====
-- The activations of edge_runtime/resident_core.py and the budget of an ACT segment.
use excavator_orin_runtime.Prelude.{ℕ, ◌≡◌, refl, ap, ◌⊎◌, inl, inr, Option, none, some, arith}
use mathlib.Core.Path.{subst}
use excavator_orin_runtime.Prelude.Fault.{Error, ok, raised, Outcome-cases}
use excavator_orin_runtime.Motion.{PolicyBinding}
use excavator_orin_runtime.Sink.History as History
use excavator_orin_runtime.Ingress.{Seat, begin_activation}
use excavator_orin_runtime.Core.{Core, Tracker, not_due, rl_binding}
use excavator_orin_runtime.Core.Control.{activate_rl}
use excavator_orin_runtime.Core.Calls.{Method, Makes, rl_activated, hands_to_rl}
use excavator_orin_runtime.Core.Calls.Methods.{rl_seat, activation-By}
use excavator_orin_runtime.Core.Budget.{IsBudgeted, Differs, Open}
use excavator_orin_runtime.Core.Budget.Moves.{
  Moves, By-Moves, IsBudgeted-Moves, IsBudgeted-undue, IsBudgeted-rl, IsBudgeted-no_act, Open-past,
  Open-Differs, Differs-newer,
}
use excavator_orin_runtime.Core.Budget.Adapters.{Activated, activation-Activated, activation_raised}

abbrev pub IsWithin : Core → Type 0
IsWithin c = IsBudgeted c.segment c.act.generation c.rl.generation c.sink

-- A segment that keeps its counters, under adapters that keep or forget their generations.
pub IsWithin-kept :
    (c c' : Core)
    → IsWithin c
    → Moves c.sink c'.sink
    → c'.segment ≡ c.segment
    → (c'.act.generation ≡ none) ⊎ (c'.act.generation ≡ c.act.generation)
    → (c'.rl.generation ≡ none) ⊎ (c'.rl.generation ≡ c.rl.generation)
    → IsWithin c'
IsWithin-kept c c' v m t a r =
    let moved = IsBudgeted-Moves c.segment c.act.generation c.rl.generation c.sink v c'.sink m in
    elim a [
      | inr ea ↦ elim r [
        | inr er ↦ rw (t, ea, er) moved
        | inl er ↦
            rw (t, ea, er)
              (IsBudgeted-rl c.segment c.act.generation c.rl.generation c'.sink moved none tt tt)
      ]
      | inl ea ↦
          let gone = IsBudgeted-no_act c.segment c.act.generation c.rl.generation c'.sink moved in
          elim r [
            | inr er ↦ rw (t, ea, er) gone
            | inl er ↦
                rw (t, ea, er)
                  (IsBudgeted-rl c.segment none c.rl.generation c'.sink gone none tt tt)
          ]
    ]

module _ (t : Tracker) (act : Option ℕ) (s s' : Seat) (g : ℕ) where
  -- An activation of RL leaves the segment past, or open as it was.
  pub rl-Open :
      IsBudgeted t act s.adapter.generation s.sink
      → Activated s s' g
      → Open t.max_steps t.generation t.completed_steps s'.sink
  rl-Open v a = elim a.origin [
    | inr l ↦
        Open-past t.max_steps t.generation t.completed_steps s.sink.authority.generation s'.sink
          v.known (ground (arith, l, a.authority))
    | inl (e, k) ↦
        Open-Differs t.max_steps t.generation t.completed_steps s'.sink (rw k v.known)
          (rw a.authority (subst (λ x. Differs x t.generation) e v.differs))
  ]

  pub rl-IsBudgeted :
      IsBudgeted t act s.adapter.generation s.sink
      → Moves s.sink s'.sink
      → Activated s s' g
      → IsBudgeted t act (some g) s'.sink
  rl-IsBudgeted v m a =
      let moved = IsBudgeted-Moves t act s.adapter.generation s.sink v s'.sink m in
      IsBudgeted-rl t act s.adapter.generation s'.sink moved (some g) (ground (arith, a.authority))
        (elim a.origin [
          | inr l ↦ Differs-newer t.generation s.sink.authority.generation g v.known l
          | inl (e, k) ↦ subst (λ x. Differs x t.generation) e v.differs
        ])

pub activated_by :
    (m : Method) (b : PolicyBinding) (now : ℕ) (s : Seat)
    → Makes m (History.handed_off b now)
    → Moves s.sink (begin_activation b now s).1.sink
activated_by m b now s h =
    By-Moves s.sink (begin_activation b now s).1.sink (activation-By m b now s h)

-- The two results of an activation of RL.
activate_rl_state :
    (now : ℕ) (c : Core)
    → let s' = (begin_activation rl_binding now (rl_seat c)).1 in
      ((x : Error) × ((begin_activation rl_binding now (rl_seat c)).0 ≡ raised x)
        × ((activate_rl now c).1 ≡ record c { rl = s'.adapter; sink = s'.sink }))
      ⊎ ((g : ℕ) × ((begin_activation rl_binding now (rl_seat c)).0 ≡ ok g)
          × ((activate_rl now c).1
              ≡ record c { rl = s'.adapter; sink = s'.sink; segment = not_due c.segment }))
unfolding activate_rl
activate_rl_state now c = elim (Outcome-cases (begin_activation rl_binding now (rl_seat c)).0) [
  | inl (g, h) ↦ inr (g, h, ground arith)
  | inr (x, h) ↦ inl (x, h, ground arith)
]

-- A core whose RL adapter was activated, or not.
pub IsWithin-raised :
    (b : PolicyBinding) (m : Method) (now : ℕ) (c : Core) (x : Error)
    → IsWithin c
    → Makes m (History.handed_off b now)
    → (begin_activation b now (rl_seat c)).0 ≡ raised x
    → let s' = (begin_activation b now (rl_seat c)).1 in
      IsWithin (record c { rl = s'.adapter; sink = s'.sink })
IsWithin-raised b m now c x v k h =
    let s' = (begin_activation b now (rl_seat c)).1 in
    IsWithin-kept c (record c { rl = s'.adapter; sink = s'.sink }) v
      (activated_by m b now (rl_seat c) k) refl (inr refl)
      (inr (ap (λ a. a.generation) (activation_raised b now (rl_seat c) x h)))

pub activate_rl-IsWithin : (now : ℕ) (c : Core) → IsWithin c → IsWithin (activate_rl now c).1
activate_rl-IsWithin now c v = elim (activate_rl_state now c) [
  | inl (x, h, e) ↦
      rw e (IsWithin-raised rl_binding (rl_activated now) now c x v (hands_to_rl now) h)
  | inr (g, h, e) ↦
      let s' = (begin_activation rl_binding now (rl_seat c)).1 in
      let a = activation-Activated rl_binding now (rl_seat c) g h in
      let m = activated_by (rl_activated now) rl_binding now (rl_seat c) (hands_to_rl now) in
      rw (e, a.adapter)
        (IsBudgeted-undue c.segment c.act.generation (some g) s'.sink
          (rl-IsBudgeted c.segment c.act.generation (rl_seat c) s' g v m a)
          (rl-Open c.segment c.act.generation (rl_seat c) s' g v a))
]
