-- ===== src/Core/Budget/Facts.antt =====
-- What the budget of an ACT segment rests on: when edge_runtime/resident_sink.py's sink accepts a
-- candidate, and which generation a handoff or a stop leaves.
use excavator_orin_runtime.Prelude.{
  ℕ, ◌<◌, ◌≡◌, inl, inr, Bool, true, false, Option, none, some, arith, Option-cases,
}
use excavator_orin_runtime.Prelude.Fault.{Error, Outcome, ok, raised, Outcome-cases}
use excavator_orin_runtime.Motion.{ControlMode, PolicyBinding, MotionCandidate}
use excavator_orin_runtime.Motion.Authority as A
use excavator_orin_runtime.Motion.Authority.{Reason, RoutedCommand, pending_zero}
use excavator_orin_runtime.Motion.Authority.Routing.{route_lem}
use excavator_orin_runtime.Json.{Payload}
use excavator_orin_runtime.Protocol.{decode_motion_candidate}
use excavator_orin_runtime.Sink.{Sink, WriteResult}
use excavator_orin_runtime.Sink.Writes.{
  issue, issue_pending_zero, revoke_for_safety, clear_for_stop,
}
use excavator_orin_runtime.Sink.Writes.Effects.{write_locked_effect, issue_effect}
use excavator_orin_runtime.Sink.Requests as Requests
use excavator_orin_runtime.Sink.Requests.States.{handoff_state, stop_state}
use excavator_orin_runtime.Sink.Submit.{
  submit_candidate, decide, decide_with, decision, permits_active, write_decision,
}
use excavator_orin_runtime.Sink.History.Generations.{issue_pending_zero-authority}
use excavator_orin_runtime.Ingress.{Seat, revoke}
use excavator_orin_runtime.Ingress.Candidate as Candidate

-- A method returned that the candidate was accepted.
abbrev pub accepts : Outcome WriteResult → Bool
accepts (ok w) = w.is_accepted
accepts (raised e) = false

abbrev accepts_any : Outcome (Option WriteResult) → Bool
accepts_any (ok (some w)) = w.is_accepted
accepts_any (ok none) = false
accepts_any (raised e) = false

-- No zero that is written counts as an accepted command.
issue_refuses :
    (now : ℕ) (reason : Option Reason) (s : Sink)
    → accepts_any (issue_pending_zero now reason s).0 ≡ false
unfolding issue_pending_zero issue
issue_refuses now reason s = elim (Outcome-cases (pending_zero s.authority)) [
  | inr (e, k) ↦ ground arith
  | inl (o, k) ↦ elim (Option-cases o) [
    | inl n ↦ ground arith
    | inr (z, n) ↦ elim (issue_effect reason now z s) [
      | inl (w, same, p) ↦ ground arith
      | inr (e, w, halted) ↦ ground arith
    ]
  ]
]

revoke_refuses : (now : ℕ) (r : Reason) (s : Sink) → accepts (revoke_for_safety now r s).0 ≡ false
unfolding revoke_for_safety
revoke_refuses now r s =
    let s' = clear_for_stop (record s { authority = (A.request_stop now s.authority).1 }) in
    elim (Outcome-cases (A.request_stop now s.authority).0) [
      | inr (e, k) ↦ ground arith
      | inl (g, k) ↦ elim (Outcome-cases (issue_pending_zero now (some r) s').0) [
        | inr (e, h) ↦ ground arith
        | inl (o, h) ↦ elim (Option-cases o) [
          | inl n ↦ ground arith
          | inr (w, n) ↦ ground (arith, issue_refuses now (some r) s')
        ]
      ]
    ]

write_decision-accepts :
    (c : MotionCandidate) (d : RoutedCommand) (m : ControlMode) (now : ℕ) (s : Sink)
    → accepts (write_decision c d m now s).0 ≡ true
    → d.is_accepted ≡ true
unfolding write_decision
write_decision-accepts c d m now s h =
    elim (write_locked_effect m d.effective_action now d.reason d.is_accepted s) [
      | inl (w, same, p) ↦ ground arith
      | inr (e, w, halted) ↦ absurd (ground arith)
    ]

decide_with-accepts :
    (c : MotionCandidate) (d : RoutedCommand) (m : ControlMode) (now : ℕ) (s : Sink)
    → accepts (decide_with c d m now s).0 ≡ true
    → d.is_accepted ≡ true
unfolding decide_with
decide_with-accepts c d m now s h =
    ground (arith, revoke_refuses now A.safety_rejected s, write_decision-accepts c d m now s)

decide-accepts :
    (c : MotionCandidate) (d : RoutedCommand) (m : Option ControlMode) (now : ℕ) (s : Sink)
    → accepts (decide c d m now s).0 ≡ true
    → d.is_accepted ≡ true
unfolding decide
decide-accepts c d none now s h = absurd (ground arith)
decide-accepts c d (some m) now s h = decide_with-accepts c d m now s h

submit_accepts :
    (c : MotionCandidate) (now : ℕ) (s : Sink)
    → accepts (submit_candidate c now s).0 ≡ true
    → ((decision s c now).is_accepted ≡ true) × (s.synchronized ≡ true) × (s.disarmed ≡ false)
unfolding submit_candidate
submit_accepts c now s h =
    let d = decision s c now in
    (ground (arith, decide-accepts c d d.mode now s), ground arith, ground arith)

fault_refuses :
    (b : PolicyBinding) (g now : ℕ) (x : Error) (p : Payload) (s : Seat)
    → s.adapter.generation ≡ some g
    → decode_motion_candidate p ≡ raised x
    → accepts (Candidate.send b p now s).0 ≡ true
    → ⊥
unfolding Candidate.send revoke
fault_refuses b g now x p s e k h = ground arith

send_submits :
    (b : PolicyBinding) (g now : ℕ) (c : MotionCandidate) (p : Payload) (s : Seat)
    → s.adapter.generation ≡ some g
    → decode_motion_candidate p ≡ ok c
    → accepts (Candidate.send b p now s).0 ≡ true
    → (c.generation ≡ g) × (accepts (submit_candidate c now s.sink).0 ≡ true)
unfolding Candidate.send revoke
send_submits b g now c p s e k h = (ground arith, ground arith)

-- A handoff that returns has left a new generation, the one that it returns.
pub handoff_returns :
    (b : PolicyBinding) (now : ℕ) (s : Sink) {g : ℕ}
    → (Requests.request_handoff b now s).0 ≡ ok g
    → ((Requests.request_handoff b now s).1.authority.generation ≡ g) × (s.authority.generation < g)
unfolding Requests.request_handoff A.request_handoff handoff_state
handoff_returns b now s h =
    let i = issue_pending_zero-authority now none (handoff_state b now s) in
    (ground (arith, i), ground (arith, i))

-- A source's stop that returns true was of the current generation, and left a greater one.
pub source_stop_returns :
    (b : PolicyBinding) (g now : ℕ) (s : Sink)
    → (Requests.request_source_stop b g now s).0 ≡ ok true
    → (s.authority.generation ≡ g)
      × (g < (Requests.request_source_stop b g now s).1.authority.generation)
unfolding Requests.request_source_stop A.request_stop stop_state
source_stop_returns b g now s h =
    let i = issue_pending_zero-authority now none (stop_state now s) in
    (ground (arith, i), ground (arith, i))

-- An accepted candidate came under the adapter's generation, which is the authority's.
pub send-accepts :
    (b : PolicyBinding) (p : Payload) (now : ℕ) (s : Seat)
    → accepts (Candidate.send b p now s).0 ≡ true
    → (s.adapter.generation ≡ some s.sink.authority.generation)
      × (s.sink.synchronized ≡ true)
      × (s.sink.disarmed ≡ false)
unfolding Candidate.send revoke
send-accepts b p now s h = elim (Option-cases s.adapter.generation) [
  | inl e ↦ absurd (ground arith)
  | inr (g, e) ↦ elim (Outcome-cases (decode_motion_candidate p)) [
    | inr (x, k) ↦ absurd (fault_refuses b g now x p s e k h)
    | inl (c, k) ↦
        let (i, sub) = send_submits b g now c p s e k h in
        let (d, y, a) = submit_accepts c now s.sink sub in
        let (_, v) = (route_lem s.sink.authority c now (permits_active s.sink now)).0.0 d in
        (ground (arith, v.same_generation), y, a)
  ]
]
