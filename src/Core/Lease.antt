-- ===== src/Core/Lease.antt =====
-- The mission lease of edge_runtime/resident_core.py: what its end does to the machine.
pub mod Soundness
pub mod Expiry
use excavator_orin_runtime.Prelude.{
  ℕ, ◌≡◌, refl, ◌∙◌, ◌⊎◌, inl, inr, Bool, true, false, Option, none, some, List, [], ◌∷◌, arith,
  is_some, Bool-cases, Option-cases, leb, ltb, ◌&&◌, ◌||◌, not,
}
use excavator_orin_runtime.Prelude.Fault.{Error, Outcome, ok, raised, Outcome-cases}
use excavator_orin_runtime.Motion.{ControlMode, zero_action}
use excavator_orin_runtime.Motion.Authority as A
use excavator_orin_runtime.Motion.Authority.{terminal_disarm as terminal_disarm_reason}
use excavator_orin_runtime.Sink.{Sink, WriteResult}
use excavator_orin_runtime.Sink.Writes.Effects.{write_locked_effect}
use excavator_orin_runtime.Sink.Requests as Requests
use excavator_orin_runtime.Sink.Requests.{last_zero, last_mode}
use excavator_orin_runtime.Sink.Requests.States.{disarm_state, stop_state}
use excavator_orin_runtime.Sink.Consistency.{IsConsistent}
use excavator_orin_runtime.Core.{Core}

-- The lease and the disarm of the core, as its sink bears them out.
pub record IsSound (c : Core) : Type 0 where
  pub consistent : IsConsistent c.sink
  pub leased : is_some c.lease_deadline_ns ≡ true → c.sink.synchronized ≡ true
  pub ended :
      is_some c.disarm_result ≡ true → (c.sink.synchronized ≡ true) × (c.sink.disarmed ≡ true)

last_zero_disarmed :
    (now : ℕ) (m : Option ControlMode) (s : Sink)
    → s.disarmed ≡ true
    → (last_zero now m s).1.disarmed ≡ true
unfolding last_zero
last_zero_disarmed now none s d = d
last_zero_disarmed now (some m) s d =
    elim (write_locked_effect m zero_action now terminal_disarm_reason false s) [
      | inl (_, same, _) ↦ same.disarmed ∙ d
      | inr (_, _, halted) ↦ halted.disarmed
    ]

disarm_state_disarmed :
    (now : ℕ) (m : Option ControlMode) (s : Sink)
    → (last_zero now m (disarm_state now s)).1.disarmed ≡ true
unfolding disarm_state stop_state
disarm_state_disarmed now m s = last_zero_disarmed now m (disarm_state now s) refl

disarm_cases :
    (now : ℕ) (s : Sink)
    → s.synchronized ≡ true
    → (((s.disarmed ≡ true) × ((Requests.terminal_disarm now s).1 ≡ s))
        ⊎ ((is_some s.terminal_error ≡ true) × ((Requests.terminal_disarm now s).1 ≡ s)))
      ⊎ ((Requests.terminal_disarm now s).1 ≡ (last_zero now (last_mode s) (disarm_state now s)).1)
unfolding Requests.terminal_disarm disarm_state stop_state A.request_stop
disarm_cases now s i = ground arith

-- A disarm of a synchronized sink leaves it disarmed, also where its last zero cannot be written.
pub sink_disarms :
    (now : ℕ) (s : Sink)
    → IsConsistent s
    → s.synchronized ≡ true
    → (Requests.terminal_disarm now s).1.disarmed ≡ true
sink_disarms now s v i = elim (disarm_cases now s i) [
  | inl (inl (d, e)) ↦ rw e d
  | inl (inr (t, e)) ↦ rw e (v.stopped t)
  | inr e ↦ rw e (disarm_state_disarmed now (last_mode s) s)
]

-- A disarm that returns was of a synchronized sink.
pub disarm_returns :
    (now : ℕ) (s : Sink) {r : WriteResult}
    → (Requests.terminal_disarm now s).0 ≡ ok r
    → s.synchronized ≡ true
unfolding Requests.terminal_disarm
disarm_returns now s h = ground arith
