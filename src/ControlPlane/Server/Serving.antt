-- ===== src/ControlPlane/Server/Serving.antt =====
-- What a request to edge_runtime/resident_control.py does to the motion core.
use excavator_orin_runtime.Prelude.{
  ℕ, ◌≡◌, refl, ap, ◌∙◌, Bool, true, Option, none, some, List, [], ◌∷◌, arith, Bool-cases, inl, inr,
}
use excavator_orin_runtime.Prelude.Fault.{Error, Outcome, ok, raised, Outcome-cases}
use excavator_orin_runtime.Prelude.Proc.{and_then, return}
use excavator_orin_runtime.Json.{Json}
use excavator_orin_runtime.Core.{Core}
use excavator_orin_runtime.Core.Control.{renew_mission_lease}
use excavator_orin_runtime.Core.Control as Core_control
use excavator_orin_runtime.Core.Calls.{
  Method, rl_activated, act_activated, renewed, disarmed, step, run,
}
use excavator_orin_runtime.ControlPlane.{
  Command, status, renew_lease, activate_rl, activate_act, terminal_disarm, Request, Status,
}
use excavator_orin_runtime.ControlPlane.Server.{
  Settings, Probes, Gate, no_gate, no_executor, rl_executor_busy, rl_executor_idle, Clock, answered,
  renew_and_activate, gated, required_steps, obey, execute, answer, respond, request_of, serve_one,
  Response, success, failure, invalid_request,
}

-- ACT may be activated: its worker answers that it is ready, and RL is idle by the gate, or by the
-- probe where there is no gate.
abbrev pub Admitted : Gate → Probes → Type 0
Admitted no_gate p = (p.act_worker_ready ≡ some true) × (p.rl_behavior_idle ≡ some true)
Admitted rl_executor_idle p = p.act_worker_ready ≡ some true
Admitted _ p = ⊥

-- The calls of the core that a command makes.
pub data Makes (s : Settings) (g : Gate) (p : Probes) (t : Clock)
    : Command → Option ℕ → List Method → Type 0 where
  none_made : (command : Command) (steps : Option ℕ) → Makes s g p t command steps []
  renews :
      (steps : Option ℕ)
      → Makes s g p t renew_lease steps (renewed s.mission_lease_ms t.at_renewal ∷ [])
  renews_for_rl :
      (steps : Option ℕ)
      → Makes s g p t activate_rl steps (renewed s.mission_lease_ms t.at_renewal ∷ [])
  activates_rl :
      (steps : Option ℕ)
      → Makes s g p t activate_rl steps
          (renewed s.mission_lease_ms t.at_renewal ∷ rl_activated t.at_command ∷ [])
  renews_for_act :
      (n : ℕ)
      → Admitted g p
      → Makes s g p t activate_act (some n) (renewed s.mission_lease_ms t.at_renewal ∷ [])
  activates_act :
      (n : ℕ)
      → Admitted g p
      → Makes s g p t activate_act
          (some n)
          (renewed s.mission_lease_ms t.at_renewal ∷ act_activated (some n) t.at_command ∷ [])
  disarms : (steps : Option ℕ) → Makes s g p t terminal_disarm steps (disarmed t.at_command ∷ [])

answered-true : (o : Option Bool) → answered o ≡ true → o ≡ some true
answered-true none h = absurd (cc)
answered-true (some b) h = ap some h

-- All the calls of a command.
abbrev pub all_calls : Settings → Clock → Command → Option ℕ → List Method
all_calls s t status steps = []
all_calls s t renew_lease steps = renewed s.mission_lease_ms t.at_renewal ∷ []
all_calls s t activate_rl steps =
    renewed s.mission_lease_ms t.at_renewal ∷ rl_activated t.at_command ∷ []
all_calls s t activate_act none = []
all_calls s t activate_act (some n) =
    renewed s.mission_lease_ms t.at_renewal ∷ act_activated (some n) t.at_command ∷ []
all_calls s t terminal_disarm steps = disarmed t.at_command ∷ []

module _ (s : Settings) (g : Gate) (p : Probes) (t : Clock) (c : Core) where
  -- The core is left as some of the calls leave it, and all of them were made where nothing is raised.
  abbrev pub By : Command → Option ℕ → Outcome (Unit {0}) × Core → Type 0
  By command steps x =
      (ms : List Method) × Makes s g p t command steps ms
      × (x.1 ≡ run ms c)
      × (x.0 ≡ ok tt → ms ≡ all_calls s t command steps)

  not_ok : {A : Type 0} {e : Error} → ◌≡◌ {A = Outcome (Unit {0})} (raised e) (ok tt) → A
  not_ok h = absurd (cc)

  rl-By : (steps : Option ℕ) → By activate_rl steps (obey s g p t activate_rl steps c)
  unfolding obey run step
  rl-By steps = elim (Outcome-cases (renew_mission_lease s.mission_lease_ms t.at_renewal c).0) [
    | inr (e, q) ↦ (_, renews_for_rl steps, rw q refl, rw q (λ h. not_ok h))
    | inl (u, q) ↦
        let c1 = (renew_mission_lease s.mission_lease_ms t.at_renewal c).1 in
        elim (Outcome-cases (Core_control.activate_rl t.at_command c1).0) [
          | inr (e, r) ↦ (_, activates_rl steps, rw q (rw r refl), λ h. refl)
          | inl (n, r) ↦ (_, activates_rl steps, rw q (rw r refl), λ h. refl)
        ]
  ]

  -- The operation of an activation of ACT, once it is admitted.
  abbrev after_act : Outcome ℕ × Core → Outcome (Unit {0}) × Core
  after_act (o, c') = and_then o (λ n. return tt) c'

  operation-By :
      (n : ℕ) → Admitted g p → By activate_act (some n) (after_act (renew_and_activate s n t c))
  unfolding run step
  operation-By n h =
      elim (Outcome-cases (renew_mission_lease s.mission_lease_ms t.at_renewal c).0) [
        | inr (e, q) ↦ (_, renews_for_act n h, rw q refl, rw q (λ h. not_ok h))
        | inl (u, q) ↦
            let c1 = (renew_mission_lease s.mission_lease_ms t.at_renewal c).1 in
            elim (Outcome-cases (Core_control.activate_act (some n) t.at_command c1).0) [
              | inr (e, r) ↦ (_, activates_act n h, rw q (rw r refl), λ h. refl)
              | inl (m, r) ↦ (_, activates_act n h, rw q (rw r refl), λ h. refl)
            ]
      ]

  none-By : (command : Command) (steps : Option ℕ) (e : Error) → By command steps (raised e, c)
  unfolding run
  none-By command steps e = ([], none_made command steps, refl, λ h. not_ok h)

module _ (s : Settings) (p : Probes) (t : Clock) (c : Core) where
  gated-By :
      (g : Gate) (n : ℕ)
      → p.act_worker_ready ≡ some true
      → By s g p t c activate_act
          (some n)
          (after_act s g p t c (gated g p (renew_and_activate s n t) c))
  unfolding gated
  gated-By no_gate n ready = elim (Bool-cases (answered p.rl_behavior_idle)) [
    | inl e ↦ rw e (operation-By s no_gate p t c n (ready, answered-true p.rl_behavior_idle e))
    | inr e ↦ rw e (none-By s no_gate p t c activate_act (some n) _)
  ]
  gated-By no_executor n ready = none-By s no_executor p t c activate_act (some n) _
  gated-By rl_executor_busy n ready = none-By s rl_executor_busy p t c activate_act (some n) _
  gated-By rl_executor_idle n ready = operation-By s rl_executor_idle p t c n ready

  act-By :
      (g : Gate) (steps : Option ℕ)
      → By s g p t c activate_act steps (obey s g p t activate_act steps c)
  unfolding obey required_steps
  act-By g none = elim (Bool-cases (answered p.act_worker_ready)) [
    | inl e ↦ rw e (none-By s g p t c activate_act none _)
    | inr e ↦ rw e (none-By s g p t c activate_act none _)
  ]
  act-By g (some n) = elim (Bool-cases (answered p.act_worker_ready)) [
    | inl e ↦ rw e (gated-By g n (answered-true p.act_worker_ready e))
    | inr e ↦ rw e (none-By s g p t c activate_act (some n) _)
  ]

  obey-By :
      (g : Gate) (command : Command) (steps : Option ℕ)
      → By s g p t c command steps (obey s g p t command steps c)
  unfolding obey run step
  obey-By g status steps = ([], none_made status steps, refl, λ h. refl)
  obey-By g renew_lease steps = (_, renews steps, refl, λ h. refl)
  obey-By g activate_rl steps = rl-By s g p t c steps
  obey-By g activate_act steps = act-By g steps
  obey-By g terminal_disarm steps =
      elim (Outcome-cases (Core_control.terminal_disarm t.at_command c).0) [
        | inl (r, e) ↦ (_, disarms steps, rw e refl, λ h. refl)
        | inr (x, e) ↦ (_, disarms steps, rw e refl, λ h. refl)
      ]

-- What a request does: the response says that it is invalid and the core is left alone, or the core
-- is left as calls of its methods leave it that the request's command makes, and all of them where
-- the response is a success.
abbrev pub Served :
    Settings → Gate → Probes → Clock → Core → Outcome Request → Response × Core → Type 0
Served s g p t c (raised e) x = (x.0 ≡ failure none invalid_request) × (x.1 ≡ c)
Served s g p t c (ok r) x =
    (ms : List Method) × Makes s g p t r.command r.max_steps ms
    × (x.1 ≡ run ms c)
    × ((st : Status) → x.0 ≡ success r.command st → ms ≡ all_calls s t r.command r.max_steps)

pub execute-obey :
    (s : Settings) (g : Gate) (p : Probes) (t : Clock) (r : Request) (c : Core)
    → ((execute s g p t r c).1 ≡ (obey s g p t r.command r.max_steps c).1)
      × ((st : Status)
          → answer r.command (execute s g p t r c).0 ≡ success r.command st
          → (obey s g p t r.command r.max_steps c).0 ≡ ok tt)
unfolding execute
execute-obey s g p t r c = elim (Outcome-cases (obey s g p t r.command r.max_steps c).0) [
  | inl (u, e) ↦ (rw e refl, λ st h. e)
  | inr (x, e) ↦ (rw e refl, λ st h. absurd (let q = rw e at h in ground arith))
]

respond-Served :
    (s : Settings) (g : Gate) (p : Probes) (t : Clock) (o : Outcome Request) (c : Core)
    → Served s g p t c o (respond s g p t o c)
unfolding respond
respond-Served s g p t (raised e) c = (refl, refl)
respond-Served s g p t (ok r) c =
    let (same, returned) = execute-obey s g p t r c in
    let (ms, makes, left, full) = obey-By s p t c g r.command r.max_steps in
    (ms, makes, same ∙ left, λ st h. full (returned st h))

-- A request that is invalid changes nothing and is answered so. Any other changes the core only by
-- calls of the core's methods: a renewal, for an activation followed by that activation, or the
-- disarm; ACT is activated only where its worker answers that it is ready and RL is idle; and a
-- success means that all the calls of its command were made.
pub serve_one-Served :
    (s : Settings) (g : Gate) (p : Probes) (t : Clock) (frame : Option Json) (c : Core)
    → Served s g p t c (request_of frame) (serve_one s g p t frame c)
unfolding serve_one
serve_one-Served s g p t frame c = respond-Served s g p t (request_of frame) c
