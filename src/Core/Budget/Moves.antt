-- ===== src/Core/Budget/Moves.antt =====
-- The budget of an ACT segment of edge_runtime/resident_core.py, and the calls on the sink.
use excavator_orin_runtime.Prelude.{
  ℕ, ◌≤◌, ◌<◌, ◌≡◌, ◌⊎◌, inl, inr, true, Option, none, some, arith,
}
use excavator_orin_runtime.Sink.{Sink}
use excavator_orin_runtime.Sink.History.Stopped.{disarmed_for_good}
use excavator_orin_runtime.Sink.History.Started.{run_synchronized}
use excavator_orin_runtime.Sink.History.Generations.{run-Grows}
use excavator_orin_runtime.Core.{Tracker, not_due}
use excavator_orin_runtime.Core.Calls.{Method, By}
use excavator_orin_runtime.Core.Budget.{IsBudgeted, IsPositive, UpTo, Differs, Open}

-- What no call on the sink takes back.
pub record Moves (s s' : Sink) : Type 0 where
  pub grows : s.authority.generation ≤ s'.authority.generation
  pub starts : s.synchronized ≡ true → s'.synchronized ≡ true
  pub stops : s.synchronized ≡ true → s.disarmed ≡ true → s'.disarmed ≡ true

pub By-Moves : {m : Method} (s s' : Sink) → By m s s' → Moves s s'
By-Moves s s' b = record {
  grows = rw b.result (run-Grows b.calls s);
  starts = λ i. rw b.result (run_synchronized b.calls s i);
  stops = λ i d. rw b.result (disarmed_for_good b.calls s i d).disarmed;
}

UpTo-grows : (o : Option ℕ) (n m : ℕ) → n ≤ m → UpTo o n → UpTo o m
UpTo-grows none n m le u = tt
UpTo-grows (some g) n m le u = omega (arith, le, u)

Open-Moves :
    (b g : Option ℕ) (n : ℕ) (s s' : Sink)
    → Moves s s'
    → IsPositive b
    → (n ≡ 0) ⊎ (s.synchronized ≡ true)
    → Open b g n s
    → Open b g n s'
Open-Moves none g n s s' m p i o = tt
Open-Moves (some b) none n s s' m p i o = tt
Open-Moves (some b) (some g) n s s' m p i o = ground (arith, m.grows, m.starts, m.stops, p, i, o)

module _ (t : Tracker) (act rl : Option ℕ) (s : Sink) (v : IsBudgeted t act rl s) where
  pub IsBudgeted-Moves : (s' : Sink) → Moves s s' → IsBudgeted t act rl s'
  IsBudgeted-Moves s' m = record {
    positive = v.positive;
    within = v.within;
    begun = ground (arith, v.begun, m.starts);
    known = UpTo-grows t.generation s.authority.generation s'.authority.generation m.grows v.known;
    rl_known = UpTo-grows rl s.authority.generation s'.authority.generation m.grows v.rl_known;
    follows = v.follows;
    differs = v.differs;
    ends = elim v.ends [
      | inl d ↦ inl d
      | inr o ↦
          inr (Open-Moves t.max_steps t.generation t.completed_steps s s' m v.positive v.begun o)
    ];
  }

  -- The mark of the handoff may go where the segment is open or past.
  pub IsBudgeted-undue :
      Open t.max_steps t.generation t.completed_steps s → IsBudgeted (not_due t) act rl s
  IsBudgeted-undue o = record {
    positive = v.positive;
    within = v.within;
    begun = v.begun;
    known = v.known;
    rl_known = v.rl_known;
    follows = v.follows;
    differs = v.differs;
    ends = inr o;
  }

  pub IsBudgeted-no_act : IsBudgeted t none rl s
  IsBudgeted-no_act = record {
    positive = v.positive;
    within = v.within;
    begun = v.begun;
    known = v.known;
    rl_known = v.rl_known;
    follows = tt;
    differs = v.differs;
    ends = v.ends;
  }

  pub IsBudgeted-rl :
      (rl' : Option ℕ)
      → UpTo rl' s.authority.generation
      → Differs rl' t.generation
      → IsBudgeted t act rl' s
  IsBudgeted-rl rl' u d = record {
    positive = v.positive;
    within = v.within;
    begun = v.begun;
    known = v.known;
    rl_known = u;
    follows = v.follows;
    differs = d;
    ends = v.ends;
  }

-- A segment of a generation that was left behind is past.
pub Open-past :
    (b g : Option ℕ) (n m : ℕ) (s : Sink) → UpTo g m → m < s.authority.generation → Open b g n s
Open-past none g n m s u l = tt
Open-past (some b) none n m s u l = tt
Open-past (some b) (some g) n m s u l = inr (inl (omega (arith, u, l)))

pub Open-Differs :
    (b g : Option ℕ) (n : ℕ) (s : Sink)
    → UpTo g s.authority.generation
    → Differs (some s.authority.generation) g
    → Open b g n s
Open-Differs none g n s u d = tt
Open-Differs (some b) none n s u d = tt
Open-Differs (some b) (some g) n s u d = ground (arith, u, d)

pub Open-disarmed : (b g : Option ℕ) (n : ℕ) (s : Sink) → s.disarmed ≡ true → Open b g n s
Open-disarmed none g n s d = tt
Open-disarmed (some b) none n s d = tt
Open-disarmed (some b) (some g) n s d = inr (inr d)

pub Open-begins : (b g : Option ℕ) (n : ℕ) (s : Sink) → IsPositive b → n ≡ 0 → Open b g n s
Open-begins none g n s p z = tt
Open-begins (some b) none n s p z = tt
Open-begins (some b) (some g) n s p z = inl (omega (arith, p, z))

pub Differs-newer : (g : Option ℕ) (n m : ℕ) → UpTo g n → n < m → Differs (some m) g
Differs-newer none n m u l = tt
Differs-newer (some g) n m u l = ground (arith, u, l)
