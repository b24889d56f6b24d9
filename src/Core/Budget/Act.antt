-- ===== src/Core/Budget/Act.antt =====
-- The methods of ACT in edge_runtime/resident_core.py and the budget of its segment.
use excavator_orin_runtime.Prelude.{
  ℕ, ◌<◌, ◌≡◌, refl, ◌⊎◌, inl, inr, true, false, Option, none, some, arith,
}
use mathlib.Core.Path.{subst}
use excavator_orin_runtime.Prelude.Fault.{Error, ok, raised, Outcome-cases}
use excavator_orin_runtime.Ingress.{Seat, begin_activation}
use excavator_orin_runtime.Core.{Core, Tracker, new_tracker, act_binding, step_budget_of}
use excavator_orin_runtime.Core.Control.{activate_act, is_generation}
use excavator_orin_runtime.Core.Calls.{act_activated, hands_to_act}
use excavator_orin_runtime.Core.Calls.Methods.{act_seat}
use excavator_orin_runtime.Core.Budget.{IsBudgeted, IsPositive, AtMost, UpTo, Follows, Differs}
use excavator_orin_runtime.Core.Budget.Moves.{Moves, IsBudgeted-Moves, Open-begins}
use excavator_orin_runtime.Core.Budget.Adapters.{Activated, activation-Activated, activation_raised}
use excavator_orin_runtime.Core.Budget.Methods.{IsWithin, activated_by}
use excavator_orin_runtime.Core.Budget.Segments.{Fits, IsWithin-Fits}

budget-IsPositive : (o p : Option ℕ) → step_budget_of o ≡ ok p → IsPositive p
unfolding step_budget_of
budget-IsPositive none none h = tt
budget-IsPositive none (some b) h = absurd (ground arith)
budget-IsPositive (some n) none h = tt
budget-IsPositive (some n) (some b) h = ground arith

AtMost-none : (o : Option ℕ) → AtMost 0 o
AtMost-none none = tt
AtMost-none (some b) = omega arith

Differs-older : (rl : Option ℕ) (n g : ℕ) → UpTo rl n → n < g → Differs rl (some g)
Differs-older none n g u l = tt
Differs-older (some r) n g u l = ground (arith, u, l)

Follows-same : (t : Option ℕ) (g : ℕ) → is_generation t g ≡ true → Follows (some g) t
Follows-same none g h = absurd (ground arith)
Follows-same (some a) g h = ground arith

Follows_other : (t : Option ℕ) (g : ℕ) → is_generation t g ≡ false → Follows (some g) t → ⊥
Follows_other none g h f = f
Follows_other (some a) g h f = ground (arith, f)

module _ (t : Tracker) (rl : Option ℕ) (s s' : Seat) (g : ℕ) where
  -- The generation is that of the segment: it goes on.
  continued-IsBudgeted :
      IsBudgeted t s.adapter.generation rl s.sink
      → Moves s.sink s'.sink
      → is_generation t.generation g ≡ true
      → IsBudgeted t (some g) rl s'.sink
  continued-IsBudgeted v m h =
      let moved = IsBudgeted-Moves t s.adapter.generation rl s.sink v s'.sink m in
      record {
        positive = moved.positive;
        within = moved.within;
        begun = moved.begun;
        known = moved.known;
        rl_known = moved.rl_known;
        follows = Follows-same t.generation g h;
        differs = moved.differs;
        ends = moved.ends;
      }

  -- The generation is new: so is the segment.
  begun-IsBudgeted :
      (steps : Option ℕ)
      → IsPositive steps
      → IsBudgeted t s.adapter.generation rl s.sink
      → Moves s.sink s'.sink
      → Activated s s' g
      → is_generation t.generation g ≡ false
      → IsBudgeted (new_tracker (some g) steps) (some g) rl s'.sink
  begun-IsBudgeted steps p v m a h =
      let moved = IsBudgeted-Moves t s.adapter.generation rl s.sink v s'.sink m in
      record {
        positive = p;
        within = AtMost-none steps;
        begun = inl refl;
        known = ground (arith, a.authority);
        rl_known = moved.rl_known;
        follows = refl;
        differs = elim a.origin [
          | inr l ↦ Differs-older rl s.sink.authority.generation g v.rl_known l
          | inl (e, _) ↦
              absurd
                (Follows_other t.generation g h (subst (λ x. Follows x t.generation) e v.follows))
        ];
        ends = inr (Open-begins steps (some g) 0 s'.sink p refl);
      }

module _ (max_steps : Option ℕ) (now : ℕ) (c : Core) where
  act_refused :
      (x : Error) → step_budget_of max_steps ≡ raised x → (activate_act max_steps now c).1 ≡ c
  unfolding activate_act
  act_refused x h = ground arith

  act_raised :
      (steps : Option ℕ) (x : Error)
      → step_budget_of max_steps ≡ ok steps
      → (begin_activation act_binding now (act_seat c)).0 ≡ raised x
      → let s' = (begin_activation act_binding now (act_seat c)).1 in
        Fits (activate_act max_steps now c).1 c.segment s'.adapter c.rl s'.sink
  unfolding activate_act
  act_raised steps x h k = ground arith

  act_returned :
      (steps : Option ℕ) (g : ℕ)
      → step_budget_of max_steps ≡ ok steps
      → (begin_activation act_binding now (act_seat c)).0 ≡ ok g
      → let s' = (begin_activation act_binding now (act_seat c)).1 in
        ((is_generation c.segment.generation g ≡ true)
          × Fits (activate_act max_steps now c).1 c.segment s'.adapter c.rl s'.sink)
        ⊎ ((is_generation c.segment.generation g ≡ false)
            × Fits
                (activate_act max_steps now c).1
                (new_tracker (some g) steps)
                s'.adapter
                c.rl
                s'.sink)
  unfolding activate_act
  act_returned steps g h k = ground arith

  pub activate_act-IsWithin : IsWithin c → IsWithin (activate_act max_steps now c).1
  activate_act-IsWithin v =
      let s = act_seat c in
      let o = begin_activation act_binding now s in
      let c' = (activate_act max_steps now c).1 in
      let m =
        activated_by (act_activated max_steps now) act_binding now s (hands_to_act max_steps now) in
      elim (Outcome-cases (step_budget_of max_steps)) [
        | inr (x, h) ↦ rw (act_refused x h) v
        | inl (steps, h) ↦ elim (Outcome-cases o.0) [
          | inr (x, k) ↦
              IsWithin-Fits c' c.segment o.1.adapter c.rl o.1.sink (act_raised steps x h k) (
                rw (activation_raised act_binding now s x k)
                  (IsBudgeted-Moves c.segment c.act.generation c.rl.generation c.sink v o.1.sink m))
          | inl (g, k) ↦
              let a = activation-Activated act_binding now s g k in
              elim (act_returned steps g h k) [
                | inl (i, f) ↦
                    IsWithin-Fits c' c.segment o.1.adapter c.rl o.1.sink f
                      (rw a.adapter (continued-IsBudgeted c.segment c.rl.generation s o.1 g v m i))
                | inr (i, f) ↦
                    IsWithin-Fits c' (new_tracker (some g) steps) o.1.adapter c.rl o.1.sink f (
                      rw a.adapter (
                        begun-IsBudgeted c.segment c.rl.generation s o.1 g steps
                          (budget-IsPositive max_steps steps h) v m a i))
              ]
        ]
      ]
