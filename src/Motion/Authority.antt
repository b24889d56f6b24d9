-- ===== src/Motion/Authority.antt =====
-- `ResidentMotionAuthority` of edge_runtime/resident_motion.py: who may move, and the handoffs.
pub mod Coherence
pub mod Routing
pub mod Calls
pub mod Handoff
mod Examples
use excavator_orin_runtime.Prelude.{
  ℕ, ◌+◌, ◌-◌, Bool, true, false, ◌&&◌, not, Option, none, some, if◌then◌else◌, ltb, leb, ◌==◌,
  is_some, str_eq,
}
use excavator_orin_runtime.Prelude.Fault.{
  Outcome, ok, raised, value_error, runtime_error, ack_action, ack_generation, ack_unawaited,
  ack_predates, ack_not_pending, ack_mode, latency_generation, latency_predates, latency_stale,
  latency_inactive, binding_missing, target_missing,
}
use excavator_orin_runtime.Prelude.Proc.{
  Proc, raise, read, call, required, assign, ensure, ◌>>=◌, ◌>>◌,
}
use excavator_orin_runtime.Motion.{
  ControlMode, manual_action, mode_eq, HandoffPhase, idle, terminal_zero_pending,
  target_zero_pending, active, Action, zero_action, is_zero, action_finite, within_manual,
  PolicyBinding, policy_binding, MotionCandidate, uint64_max,
}

-- The fields of `_AuthorityState` beside the constant skew limit. A latency is kept as the
-- nanoseconds that `_elapsed_ms` divides by a million.
pub record Authority : Type 0 where
  pub max_future_skew_ns : ℕ
  pub generation : ℕ
  pub phase : HandoffPhase
  pub active_binding : Option PolicyBinding
  pub target_binding : Option PolicyBinding
  pub requested_ns : Option ℕ
  pub last_latency_ns : Option ℕ

-- `_AuthorityState(generation=..., last_handoff_latency_ms=...)`.
abbrev pub at_rest : ℕ → ℕ → Option ℕ → Authority
at_rest skew generation latency = record {
  max_future_skew_ns = skew;
  generation = generation;
  phase = idle;
  active_binding = none;
  target_binding = none;
  requested_ns = none;
  last_latency_ns = latency;
}

abbrev pub new_authority : ℕ → Authority
new_authority skew = at_rest skew 0 none

-- The generation of the handoff is that of the new state.
unfoldable pub request_handoff : PolicyBinding → ℕ → Proc Authority ℕ
request_handoff binding now = do
  target ← call (policy_binding binding.source binding.mode)
  assign (λ s. record s {
    generation = s.generation + 1;
    phase = if is_some s.active_binding then terminal_zero_pending else target_zero_pending;
    target_binding = some target;
    requested_ns = some now;
  })
  read (λ s. s.generation)

unfoldable pub request_stop : ℕ → Proc Authority ℕ
request_stop now = do
  assign (λ s.
      if is_some s.active_binding
      then record s {
        generation = s.generation + 1;
        phase = terminal_zero_pending;
        target_binding = none;
        requested_ns = some now;
      }
      else at_rest s.max_future_skew_ns (s.generation + 1) s.last_latency_ns)
  read (λ s. s.generation)

pub data Purpose : Type 0 where
  terminal_source_zero target_mode_claim : Purpose

pub record PendingZero : Type 0 where
  pub generation : ℕ
  pub mode : ControlMode
  pub purpose : Purpose

abbrev pub mode_of : Option PolicyBinding → Option ControlMode
mode_of none = none
mode_of (some b) = some b.mode

-- The zero that a phase waits for, of the binding it is about.
abbrev zero_of : ℕ → Purpose → Option PolicyBinding → Outcome (Option PendingZero)
zero_of generation purpose none = raised (runtime_error binding_missing)
zero_of generation purpose (some b) =
    ok (some (record { generation = generation; mode = b.mode; purpose = purpose }))

abbrev zero_in : HandoffPhase → Authority → Outcome (Option PendingZero)
zero_in terminal_zero_pending s = zero_of s.generation terminal_source_zero s.active_binding
zero_in target_zero_pending s = zero_of s.generation target_mode_claim s.target_binding
zero_in idle s = ok none
zero_in active s = ok none

unfoldable pub pending_zero : Authority → Outcome (Option PendingZero)
pending_zero s = zero_in s.phase s

abbrev binding_has_mode : Option PolicyBinding → ControlMode → Bool
binding_has_mode none mode = false
binding_has_mode (some b) mode = mode_eq b.mode mode

-- After the zero of the old source: rest, or the claim of the target.
abbrev end_source : Authority → Authority
end_source s =
    if is_some s.target_binding
    then record s { phase = target_zero_pending; active_binding = none }
    else at_rest s.max_future_skew_ns s.generation s.last_latency_ns

abbrev begin_target : Option PolicyBinding → Proc Authority Unit
begin_target none = raise (runtime_error target_missing)
begin_target (some target) = assign (λ s. record s {
  phase = active;
  active_binding = some target;
  target_binding = none;
  requested_ns = none;
})

-- The part of `acknowledge_zero` that depends on the phase.
abbrev acknowledge_in : HandoffPhase → Authority → ControlMode → Proc Authority Unit
acknowledge_in terminal_zero_pending s mode = do
  ensure (binding_has_mode s.active_binding mode) (value_error ack_mode)
  assign end_source
acknowledge_in target_zero_pending s mode = do
  ensure (binding_has_mode s.target_binding mode) (value_error ack_mode)
  begin_target s.target_binding
acknowledge_in idle s mode = raise (value_error ack_not_pending)
acknowledge_in active s mode = raise (value_error ack_not_pending)

unfoldable pub acknowledge_zero : ℕ → ControlMode → Action → ℕ → Proc Authority Unit
acknowledge_zero generation mode action acknowledged = do
  ensure (is_zero action) (value_error ack_action)
  s ← read (λ s. s)
  ensure (generation == s.generation) (value_error ack_generation)
  requested ← required s.requested_ns (value_error ack_unawaited)
  ensure (leb requested acknowledged) (value_error ack_predates)
  acknowledge_in s.phase s mode

abbrev pub phase_active : HandoffPhase → Bool
phase_active active = true
phase_active _ = false

abbrev phase_idle : HandoffPhase → Bool
phase_idle idle = true
phase_idle _ = false

unfoldable pub record_handoff_latency : ℕ → ℕ → ℕ → Proc Authority Unit
record_handoff_latency generation started completed = do
  ensure (leb generation uint64_max) (value_error latency_generation)
  ensure (leb started completed) (value_error latency_predates)
  s ← read (λ s. s)
  ensure (generation == s.generation) (value_error latency_stale)
  ensure (phase_active s.phase && is_some s.active_binding) (value_error latency_inactive)
  assign (λ s. record s { last_latency_ns = some (completed - started) })

-- Why a candidate was accepted or refused, or a command written.
pub data Reason : Type 0 where
  accepted no_active_policy handoff_in_progress wrong_source stale_generation wrong_mode : Reason
  safety_rejected action_expired action_from_future invalid_action : Reason
  invalid_manual_action : Reason
  purpose_of : Purpose → Reason
  sink_faulted terminally_disarmed handoff_first_action_ack_pending candidate_lease_expired : Reason
  active_policy_idle_keepalive unsafe_telemetry state_watchdog terminal_disarm : Reason
  act_segment_early_complete act_segment_budget_reached : Reason

pub record RoutedCommand : Type 0 where
  pub generation : ℕ
  pub mode : Option ControlMode
  pub requested_action : Action
  pub effective_action : Action
  pub is_accepted : Bool
  pub reason : Reason

abbrev zero_mode_in : HandoffPhase → Authority → Option ControlMode
zero_mode_in terminal_zero_pending s = mode_of s.active_binding
zero_mode_in target_zero_pending s = mode_of s.target_binding
zero_mode_in idle s = mode_of s.active_binding
zero_mode_in active s = mode_of s.active_binding

abbrev zero_mode_for_state : Authority → Option ControlMode
zero_mode_for_state s = zero_mode_in s.phase s

abbrev zero_decision : ℕ → Option ControlMode → Action → Reason → RoutedCommand
zero_decision generation mode requested reason = record {
  generation = generation;
  mode = mode;
  requested_action = requested;
  effective_action = zero_action;
  is_accepted = false;
  reason = reason;
}

-- The checks of `route` against the active binding, in the order of the code.
route_active : Authority → PolicyBinding → MotionCandidate → ℕ → Bool → RoutedCommand
route_active s binding c now safe =
    if not (str_eq c.source binding.source)
    then refuse wrong_source
    else if not (c.generation == s.generation)
    then refuse stale_generation
    else if not (mode_eq c.mode binding.mode)
    then refuse wrong_mode
    else if not safe
    then refuse safety_rejected
    else if ltb c.valid_until_ns now
    then refuse action_expired
    else if ltb (now + s.max_future_skew_ns) c.created_ns
    then refuse action_from_future
    else if not (action_finite c.action)
    then refuse invalid_action
    else if mode_eq binding.mode manual_action && not (within_manual c.action)
    then refuse invalid_manual_action
    else record {
      generation = s.generation;
      mode = some binding.mode;
      requested_action = c.action;
      effective_action = c.action;
      is_accepted = true;
      reason = accepted;
    }
  where
    refuse : Reason → RoutedCommand
    refuse reason = zero_decision s.generation (some binding.mode) c.action reason

-- The state admits no candidate.
abbrev route_waiting : Authority → MotionCandidate → RoutedCommand
route_waiting s c =
    zero_decision s.generation (zero_mode_for_state s) c.action
      (if phase_idle s.phase then no_active_policy else handoff_in_progress)

abbrev route_to : Option PolicyBinding → Authority → MotionCandidate → ℕ → Bool → RoutedCommand
route_to none s c now safe = route_waiting s c
route_to (some binding) s c now safe = route_active s binding c now safe

unfoldable pub route : Authority → MotionCandidate → ℕ → Bool → RoutedCommand
unfolding route_active
route s c now safe =
    if phase_active s.phase then route_to s.active_binding s c now safe else route_waiting s c
