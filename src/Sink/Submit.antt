-- ===== src/Sink/Submit.antt =====
-- The candidate and the watchdog methods of edge_runtime/resident_sink.py.
pub mod States
use excavator_orin_runtime.Prelude.{
  ℕ, ◌-◌, String, Bool, true, false, ◌&&◌, ◌||◌, not, Option, none, some, if◌then◌else◌, ltb, leb,
  ◌==◌, is_some,
}
use excavator_orin_runtime.Prelude.Fault.{
  Outcome, ok, raised, runtime_error, action_without_sequence,
}
use excavator_orin_runtime.Prelude.Proc.{
  Proc, return, raise, read, call, assign, required, ensure, ◌>>=◌, ◌>>◌,
}
use excavator_orin_runtime.Motion.{
  ControlMode, Action, zero_action, is_zero, PolicyBinding, policy_binding, is_binding,
  MotionCandidate,
}
use excavator_orin_runtime.Motion.Authority.{
  Authority, Reason, RoutedCommand, route, request_stop, mode_of, no_active_policy, wrong_source,
  stale_generation, wrong_mode, safety_rejected, sink_faulted, terminally_disarmed,
  handoff_first_action_ack_pending, candidate_lease_expired, active_policy_idle_keepalive,
  state_watchdog,
}
use excavator_orin_runtime.Sink.{WriteResult, CandidateLease, Measurement, FirstNonzero, Sink}
use excavator_orin_runtime.Sink.Writes.{
  cancel_measurement, in_authority, clear_for_stop, safety_permits, write_locked,
  issue_pending_zero, revoke_for_safety,
}
use excavator_orin_runtime.Sink.Requests.{require_initialized, not_written}

-- `_PASSIVE_REJECTION_REASONS`.
abbrev pub is_passive : Reason → Bool
is_passive no_active_policy = true
is_passive wrong_source = true
is_passive stale_generation = true
is_passive wrong_mode = true
is_passive _ = false

abbrev is_safety_rejection : Reason → Bool
is_safety_rejection safety_rejected = true
is_safety_rejection _ = false

-- The first nonzero command of a measured handoff is awaited.
abbrev await_first : Option Measurement → MotionCandidate → WriteResult → ℕ → Proc Sink Unit
await_first none c r now = return tt
await_first (some m) c r now = do
  s ← read (λ s. s)
  if m.generation == c.generation && not (is_some s.first_nonzero)
      then (do
        seq ← required r.command_seq (runtime_error action_without_sequence)
        assign (λ s. record s {
          first_nonzero = some (record {
            generation = c.generation;
            mode = c.mode;
            command_seq = seq;
            action = r.effective_action;
            write_ns = now;
          });
        }))
      else return tt

-- The lease and the measurement of an accepted motion.
unfoldable pub keep_motion : MotionCandidate → WriteResult → ℕ → Proc Sink Unit
keep_motion c r now = do
  binding ← call (policy_binding c.source c.mode)
  assign (λ s. record s {
    candidate_lease = some (record {
      binding = binding;
      generation = c.generation;
      valid_until_ns = c.valid_until_ns;
    });
  })
  m ← read (λ s. s.measurement)
  await_first m c r now

-- The lease of a zero that was written.
unfoldable pub drop_lease : Bool → Proc Sink Unit
drop_lease accepted = do
  assign (λ s. record s { candidate_lease = none })
  if accepted then return tt else assign cancel_measurement

-- What follows the write.
unfoldable pub after_write : MotionCandidate → RoutedCommand → WriteResult → ℕ → Proc Sink Unit
unfolding keep_motion drop_lease
after_write c d r now =
    if d.is_accepted && not (is_zero d.effective_action)
    then keep_motion c r now
    else if is_zero r.effective_action
    then drop_lease d.is_accepted
    else return tt

unfoldable pub write_decision :
    MotionCandidate → RoutedCommand → ControlMode → ℕ → Proc Sink WriteResult
write_decision c d mode now = do
  r ← write_locked mode d.effective_action now d.reason d.is_accepted
  after_write c d r now
  assign (λ s. record s { unsafe_zero_latched = not d.is_accepted })
  return r

-- A decision on a candidate, with a mode to write in.
unfoldable pub decide_with :
    MotionCandidate → RoutedCommand → ControlMode → ℕ → Proc Sink WriteResult
unfolding write_decision
decide_with c d mode now = do
  s ← read (λ s. s)
  if is_some s.pending_ack || is_passive d.reason
      then return (not_written d.reason d.mode)
      else if d.is_accepted && is_some s.first_nonzero
      then return (not_written handoff_first_action_ack_pending d.mode)
      else if is_safety_rejection d.reason
      then revoke_for_safety now safety_rejected
      else write_decision c d mode now

unfoldable pub decide :
    MotionCandidate → RoutedCommand → Option ControlMode → ℕ → Proc Sink WriteResult
unfolding decide_with
decide c d none now = return (not_written d.reason none)
decide c d (some mode) now = decide_with c d mode now

abbrev pub permits_active : Sink → ℕ → Bool
permits_active s now = elim s.authority.active_binding [
  | none ↦ false
  | some b ↦ safety_permits s now b.mode
]

-- The decision of the authority under the latest telemetry.
abbrev pub decision : Sink → MotionCandidate → ℕ → RoutedCommand
decision s c now = route s.authority c now (permits_active s now)

unfoldable pub submit_candidate : MotionCandidate → ℕ → Proc Sink WriteResult
unfolding decide
submit_candidate c now = do
  require_initialized
  s ← read (λ s. s)
  if is_some s.terminal_error
      then return (not_written sink_faulted none)
      else if s.disarmed
      then return (not_written terminally_disarmed none)
      else decide c (decision s c now) (decision s c now).mode now

-- The zero of a lease that ran out.
unfoldable pub expire_lease : ℕ → Proc Sink (Option WriteResult)
expire_lease now = do
  in_authority (request_stop now)
  assign clear_for_stop
  issue_pending_zero now (some candidate_lease_expired)

abbrev idle_zero_keepalive_ns : ℕ
idle_zero_keepalive_ns = 100000000

abbrev keepalive_due : Option ℕ → ℕ → Bool
keepalive_due none now = false
keepalive_due (some last) now = leb last now && leb idle_zero_keepalive_ns (now - last)

watch_active : Option CandidateLease → PolicyBinding → ℕ → Proc Sink (Option WriteResult)
watch_active lease b now = do
  s ← read (λ s. s)
  if not (safety_permits s now b.mode)
      then (do result ← revoke_for_safety now state_watchdog; return (some result))
      else if not (is_some lease)
          && (not (is_some s.first_nonzero) && keepalive_due s.last_write_ns now)
      then (do
        result ← write_locked b.mode zero_action now active_policy_idle_keepalive false
        return (some result))
      else return none

-- The watchdog over the source in force; `lease` is the lease at the start of the tick.
unfoldable pub watch :
    Option CandidateLease → Option PolicyBinding → ℕ → Proc Sink (Option WriteResult)
unfolding watch_active
watch lease none now = return none
watch lease (some b) now = do
  s ← read (λ s. s)
  if is_some s.pending_ack || s.unsafe_zero_latched then return none else watch_active lease b now

tick_lease : Option CandidateLease → ℕ → Proc Sink (Option WriteResult)
unfolding expire_lease watch
tick_lease none now = do active ← read (λ s. s.authority.active_binding); watch none active now
tick_lease (some l) now = do
  s ← read (λ s. s)
  if not (is_binding s.authority.active_binding l.binding)
        || not (s.authority.generation == l.generation)
      then (do
        assign (λ s. record s { candidate_lease = none })
        watch (some l) s.authority.active_binding now)
      else if ltb l.valid_until_ns now
      then expire_lease now
      else watch (some l) s.authority.active_binding now

unfoldable pub tick : ℕ → Proc Sink (Option WriteResult)
unfolding tick_lease
tick now = do
  require_initialized
  s ← read (λ s. s)
  if s.disarmed || is_some s.terminal_error then return none else tick_lease s.candidate_lease now
