-- ===== src/Core/Budget.antt =====
-- The step budget of an ACT segment of edge_runtime/resident_core.py.
pub mod Facts
pub mod Moves
pub mod Adapters
pub mod Methods
pub mod Segments
pub mod Act
pub mod Submit
pub mod History
use excavator_orin_runtime.Prelude.{
  ℕ, ◌≤◌, ◌<◌, ◌≡◌, ◌⊎◌, Bool, true, false, Option, none, some, ◌==◌,
}
use excavator_orin_runtime.Sink.{Sink}
use excavator_orin_runtime.Core.{Tracker}

abbrev pub IsPositive : Option ℕ → Type 0
IsPositive none = Unit
IsPositive (some b) = 1 ≤ b

abbrev pub AtMost : ℕ → Option ℕ → Type 0
AtMost n none = Unit
AtMost n (some b) = n ≤ b

abbrev pub UpTo : Option ℕ → ℕ → Type 0
UpTo none n = Unit
UpTo (some g) n = g ≤ n

-- The ACT adapter has the generation of the segment, or none.
abbrev pub Follows : Option ℕ → Option ℕ → Type 0
Follows none t = Unit
Follows (some a) none = ⊥
Follows (some a) (some g) = a ≡ g

abbrev pub Differs : Option ℕ → Option ℕ → Type 0
Differs none t = Unit
Differs (some a) none = Unit
Differs (some a) (some g) = (a == g) ≡ false

-- No step of this generation can be accepted any more.
abbrev pub IsPast : ℕ → Sink → Type 0
IsPast g s = (g < s.authority.generation) ⊎ (s.disarmed ≡ true)

-- A segment with steps left, or one that takes none.
abbrev pub Open : Option ℕ → Option ℕ → ℕ → Sink → Type 0
Open none g n s = Unit
Open (some b) none n s = Unit
Open (some b) (some g) n s = (n < b) ⊎ IsPast g s

abbrev pub Ends : Tracker → Sink → Type 0
Ends t s = (t.handoff_due ≡ true) ⊎ Open t.max_steps t.generation t.completed_steps s

-- The segment, the generations of the ACT and of the RL adapter, and the sink fit: the segment is
-- within its budget, and at its budget it is due for the handoff or past.
pub record IsBudgeted (t : Tracker) (act rl : Option ℕ) (s : Sink) : Type 0 where
  pub positive : IsPositive t.max_steps
  pub within : AtMost t.completed_steps t.max_steps
  pub begun : (t.completed_steps ≡ 0) ⊎ (s.synchronized ≡ true)
  pub known : UpTo t.generation s.authority.generation
  pub rl_known : UpTo rl s.authority.generation
  pub follows : Follows act t.generation
  pub differs : Differs rl t.generation
  pub ends : Ends t s
