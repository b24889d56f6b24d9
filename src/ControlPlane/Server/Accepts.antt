-- ===== src/ControlPlane/Server/Accepts.antt =====
-- What the acceptance of a request to edge_runtime/resident_control.py means for the mission lease.
use excavator_orin_runtime.Prelude.{
  ℕ, ◌≤◌, ◌≡◌, sym, ap, ◌∙◌, Bool, true, false, Option, inl, inr, Bool-cases, Option-cases,
}
use excavator_orin_runtime.Prelude.Fault.{Outcome, ok, raised, Outcome-cases}
use excavator_orin_runtime.Json.{Json}
use excavator_orin_runtime.Core.{Core, min_mission_lease_ms, max_mission_lease_ms}
use excavator_orin_runtime.Core.Control.{renew_mission_lease, lease_over}
use excavator_orin_runtime.Core.Lease.Expiry.{renewal_lem}
use excavator_orin_runtime.Sink.Requests.{is_operational}
use excavator_orin_runtime.ControlPlane.{
  Command, status, renew_lease, activate_rl, activate_act, terminal_disarm, Request, Status,
}
use excavator_orin_runtime.ControlPlane.Server.{
  Settings, Probes, Gate, no_gate, no_executor, rl_executor_busy, rl_executor_idle, Clock, success,
  answer, answered, renew_and_activate, gated, required_steps, obey, execute, request_of, respond,
  serve_one,
}
use excavator_orin_runtime.ControlPlane.Server.Serving.{execute-obey}

-- The commands that go under a lease.
abbrev pub under_lease : Command → Bool
under_lease renew_lease = true
under_lease activate_rl = true
under_lease activate_act = true
under_lease _ = false

renewed_lem :
    (c : Core) (lease now : ℕ)
    → (renew_mission_lease lease now c).0 ≡ ok tt
    → (min_mission_lease_ms ≤ lease)
      × (lease ≤ max_mission_lease_ms)
      × (is_operational c.sink ≡ true)
      × (lease_over c.lease_deadline_ns now ≡ false)
renewed_lem c lease now h = elim (renewal_lem c lease now) [
  | inl (_, low, high, o, l, _) ↦ (low, high, o, l)
  | inr (inl (r, _, _)) ↦ absurd (cc)
  | inr (inr (inl (r, _, _))) ↦ absurd (cc)
  | inr (inr (inr (e, r, _, _, _, _, _))) ↦ absurd (cc)
]

module _ (s : Settings) (p : Probes) (t : Clock) (c : Core) where
  abbrev renewal : Outcome (Unit {0})
  renewal = (renew_mission_lease s.mission_lease_ms t.at_renewal c).0

  operation-renews : (n : ℕ) → (o : ℕ) → (renew_and_activate s n t c).0 ≡ ok o → renewal ≡ ok tt
  operation-renews n o h = elim (Outcome-cases renewal) [
    | inl (tt, q) ↦ q
    | inr (e, q) ↦ absurd (let r = rw q at h in cc)
  ]

  gated-renews :
      (g : Gate) (n : ℕ) (o : ℕ)
      → (gated g p (renew_and_activate s n t) c).0 ≡ ok o
      → renewal ≡ ok tt
  unfolding gated
  gated-renews no_gate n o h = elim (Bool-cases (answered p.rl_behavior_idle)) [
    | inl e ↦ operation-renews n o (rw e at h)
    | inr e ↦ absurd (let r = rw e at h in cc)
  ]
  gated-renews no_executor n o h = absurd (cc)
  gated-renews rl_executor_busy n o h = absurd (cc)
  gated-renews rl_executor_idle n o h = operation-renews n o h

  act-renews :
      (g : Gate) (steps : Option ℕ)
      → (obey s g p t activate_act steps c).0 ≡ ok tt
      → renewal ≡ ok tt
  unfolding obey required_steps
  act-renews g steps h = elim (Bool-cases (answered p.act_worker_ready)) [
    | inr e ↦ absurd (let r = rw e at h in cc)
    | inl e ↦ elim (Option-cases steps) [
      | inl q ↦ absurd (let r = rw (e, q) at h in cc)
      | inr (n, q) ↦ elim (Outcome-cases (gated g p (renew_and_activate s n t) c).0) [
        | inl (o, k) ↦ gated-renews g n o k
        | inr (x, k) ↦ absurd (let r = rw (e, q, k) at h in cc)
      ]
    ]
  ]

  obey-renews :
      (g : Gate) (command : Command) (steps : Option ℕ)
      → under_lease command ≡ true
      → (obey s g p t command steps c).0 ≡ ok tt
      → renewal ≡ ok tt
  unfolding obey
  obey-renews g status steps u h = absurd (cc)
  obey-renews g renew_lease steps u h = h
  obey-renews g activate_rl steps u h = elim (Outcome-cases renewal) [
    | inl (tt, q) ↦ q
    | inr (e, q) ↦ absurd (let r = rw q at h in cc)
  ]
  obey-renews g activate_act steps u h = act-renews g steps h
  obey-renews g terminal_disarm steps u h = absurd (cc)

-- What an accepted command found.
abbrev pub UnderLease : Settings → Clock → Core → Type 0
UnderLease s t c =
    (min_mission_lease_ms ≤ s.mission_lease_ms)
    × (s.mission_lease_ms ≤ max_mission_lease_ms)
    × (is_operational c.sink ≡ true)
    × (lease_over c.lease_deadline_ns t.at_renewal ≡ false)

answer-success :
    (k command : Command) (o : Outcome Status) (st : Status)
    → answer k o ≡ success command st
    → k ≡ command
answer-success k command (ok x) st h = cc
answer-success k command (raised e) st h = absurd (cc)

respond-UnderLease :
    (s : Settings) (g : Gate) (p : Probes) (t : Clock) (r : Outcome Request) (c : Core)
    (command : Command) (st : Status)
    → under_lease command ≡ true
    → (respond s g p t r c).0 ≡ success command st
    → UnderLease s t c
unfolding respond
respond-UnderLease s g p t (raised e) c command st u h = absurd (cc)
respond-UnderLease s g p t (ok r) c command st u h =
    let same : r.command ≡ command =
      answer-success r.command command (execute s g p t r c).0 st h in
    let (_, returned) = execute-obey s g p t r c in
    let returns = returned st (h ∙ ap (λ (k : Command). success k st) (sym same)) in
    let renewed = obey-renews s p t c g r.command r.max_steps (ap under_lease same ∙ u) returns in
    renewed_lem c s.mission_lease_ms t.at_renewal renewed

-- A renewal or an activation is a success only where the length of the lease is within
-- [500, 5000] ms, the sink is operational, and the lease, if there is one, has not run out at the
-- time of the renewal. In particular no activation succeeds on a core that was disarmed.
pub success_under_lease :
    (s : Settings) (g : Gate) (p : Probes) (t : Clock) (frame : Option Json) (c : Core)
    (command : Command) (st : Status)
    → under_lease command ≡ true
    → (serve_one s g p t frame c).0 ≡ success command st
    → UnderLease s t c
unfolding serve_one
success_under_lease s g p t frame c command st u h =
    respond-UnderLease s g p t (request_of frame) c command st u h
