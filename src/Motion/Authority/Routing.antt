-- ===== src/Motion/Authority/Routing.antt =====
-- When `route` of edge_runtime/resident_motion.py lets a candidate move the machine.
use excavator_orin_runtime.Prelude.{
  ℕ, ◌+◌, ◌≤◌, ◌≡◌, ◌↔◌, Bool, true, some, arith, if◌then◌else◌, str_eq_iff, Option-cases, inl, inr,
}
use excavator_orin_runtime.Motion.{
  manual_action, active, zero_action, action_finite, within_manual, PolicyBinding, MotionCandidate,
}
use excavator_orin_runtime.Motion.Authority.{Authority, route, route_active}

-- What a candidate must be for the binding in force.
pub record IsAdmissible (s : Authority) (c : MotionCandidate) (now : ℕ) (safe : Bool)
    (b : PolicyBinding) : Type 0 where
  pub in_force : s.phase ≡ active
  pub bound : s.active_binding ≡ some b
  pub same_source : c.source ≡ b.source
  pub same_generation : c.generation ≡ s.generation
  pub same_mode : c.mode ≡ b.mode
  pub permitted : safe ≡ true
  pub unexpired : now ≤ c.valid_until_ns
  pub not_future : c.created_ns ≤ now + s.max_future_skew_ns
  pub finite_action : action_finite c.action ≡ true
  pub manual_limits : b.mode ≡ manual_action → within_manual c.action ≡ true

module _ (s : Authority) (b : PolicyBinding) (c : MotionCandidate) (now : ℕ) (safe : Bool) where
  route_active-IsAdmissible :
      s.phase ≡ active
      → s.active_binding ≡ some b
      → (route_active s b c now safe).is_accepted ≡ true
      → IsAdmissible s c now safe b
  unfolding route_active
  route_active-IsAdmissible p e h = ground (arith, str_eq_iff c.source b.source)

  IsAdmissible-route_active :
      IsAdmissible s c now safe b → (route_active s b c now safe).is_accepted ≡ true
  unfolding route_active
  IsAdmissible-route_active v = ground (arith, str_eq_iff c.source b.source)

  route_active_action :
      (route_active s b c now safe).effective_action
      ≡ (if (route_active s b c now safe).is_accepted then c.action else zero_action)
  unfolding route_active
  route_active_action = ground arith

-- An accepted decision is in the mode of the source in force.
pub route_mode :
    (s : Authority) (c : MotionCandidate) (now : ℕ) (safe : Bool) {b : PolicyBinding}
    → s.active_binding ≡ some b
    → (route s c now safe).is_accepted ≡ true
    → (route s c now safe).mode ≡ some b.mode
unfolding route route_active
route_mode s c now safe e h = ground arith

module _ (s : Authority) (c : MotionCandidate) (now : ℕ) (safe : Bool) where
  route-IsAdmissible :
      (route s c now safe).is_accepted ≡ true → (b : PolicyBinding) × IsAdmissible s c now safe b
  unfolding route
  route-IsAdmissible h = elim (Option-cases s.active_binding) [
    | inl e ↦ absurd (ground arith)
    | inr (b, e) ↦ (b, route_active-IsAdmissible s b c now safe (ground arith) e (ground arith))
  ]

  pub IsAdmissible-route :
      (b : PolicyBinding) → IsAdmissible s c now safe b → (route s c now safe).is_accepted ≡ true
  unfolding route
  IsAdmissible-route b v = ground (arith, IsAdmissible-route_active s b c now safe v)

  pub route_action :
      (route s c now safe).effective_action
      ≡ (if (route s c now safe).is_accepted then c.action else zero_action)
  unfolding route
  route_action = ground arith

  -- A candidate is accepted exactly when it is admissible for the binding in force; its action
  -- passes through unchanged then, and in every other case the decision is the zero action.
  pub route_lem :
      ((route s c now safe).is_accepted ≡ true
        ↔ ((b : PolicyBinding) × IsAdmissible s c now safe b))
      × ((route s c now safe).effective_action
          ≡ (if (route s c now safe).is_accepted then c.action else zero_action))
  route_lem = ((route-IsAdmissible, λ (b, v). IsAdmissible-route b v), route_action)
