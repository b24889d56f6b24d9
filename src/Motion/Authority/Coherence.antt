-- ===== src/Motion/Authority/Coherence.antt =====
-- The states that the calls of edge_runtime/resident_motion.py's authority lead to.
use excavator_orin_runtime.Prelude.{ℕ, ◌≡◌, true, none, arith, is_some}
use excavator_orin_runtime.Prelude.Fault.{Error, raised}
use excavator_orin_runtime.Motion.{
  ControlMode, idle, terminal_zero_pending, target_zero_pending, active, Action, PolicyBinding,
}
use excavator_orin_runtime.Motion.Authority.{
  Authority, new_authority, request_handoff, request_stop, pending_zero, acknowledge_zero,
  record_handoff_latency,
}

-- Which fields are set in which phase.
pub record IsCoherent (s : Authority) : Type 0 where
  pub at_idle :
      s.phase ≡ idle
      → (s.active_binding ≡ none) × (s.target_binding ≡ none) × (s.requested_ns ≡ none)
  pub at_terminal :
      s.phase ≡ terminal_zero_pending
      → (is_some s.active_binding ≡ true) × (is_some s.requested_ns ≡ true)
  pub at_target :
      s.phase ≡ target_zero_pending
      → (s.active_binding ≡ none)
        × (is_some s.target_binding ≡ true)
        × (is_some s.requested_ns ≡ true)
  pub at_active :
      s.phase ≡ active
      → (is_some s.active_binding ≡ true) × (s.target_binding ≡ none) × (s.requested_ns ≡ none)

pub new_authority-IsCoherent : (skew : ℕ) → IsCoherent (new_authority skew)
new_authority-IsCoherent skew = ground arith

pub request_handoff-IsCoherent :
    (s : Authority) (b : PolicyBinding) (now : ℕ)
    → IsCoherent s
    → IsCoherent (request_handoff b now s).1
unfolding request_handoff
request_handoff-IsCoherent s b now h = ground arith

pub request_stop-IsCoherent :
    (s : Authority) (now : ℕ) → IsCoherent s → IsCoherent (request_stop now s).1
unfolding request_stop
request_stop-IsCoherent s now h = ground arith

pub acknowledge_zero-IsCoherent :
    (s : Authority) (g : ℕ) (m : ControlMode) (a : Action) (t : ℕ)
    → IsCoherent s
    → IsCoherent (acknowledge_zero g m a t s).1
unfolding acknowledge_zero
acknowledge_zero-IsCoherent s g m a t h = ground arith

pub record_handoff_latency-IsCoherent :
    (s : Authority) (g started completed : ℕ)
    → IsCoherent s
    → IsCoherent (record_handoff_latency g started completed s).1
unfolding record_handoff_latency
record_handoff_latency-IsCoherent s g started completed h = ground arith

-- A coherent state never raises where the zero to write is read.
pub pending_zero_total : (s : Authority) (e : Error) → IsCoherent s → pending_zero s ≡ raised e → ⊥
unfolding pending_zero
pending_zero_total s e h p = ground arith
