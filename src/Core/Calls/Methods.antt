-- ===== src/Core/Calls/Methods.antt =====
-- Each method of edge_runtime/resident_core.py, as the calls that it makes on the sink.
use excavator_orin_runtime.Prelude.{ℕ, ◌≡◌, ◌⊎◌, inl, inr, Option, arith, Option-cases, Bool-cases}
use excavator_orin_runtime.Motion.{PolicyBinding}
use excavator_orin_runtime.Json.{Payload}
use excavator_orin_runtime.Sink.{Telemetry}
use excavator_orin_runtime.Sink.Requests as Requests
use excavator_orin_runtime.Sink.Observe as Observe
use excavator_orin_runtime.Sink.Submit as Submit
use excavator_orin_runtime.Sink.History as History
use excavator_orin_runtime.Ingress.{Seat, begin_activation}
use excavator_orin_runtime.Ingress.Candidate as Candidate
use excavator_orin_runtime.Core.{Core, rl_binding, act_binding}
use excavator_orin_runtime.Core.Control.{
  observe_telemetry, activate_rl, activate_act, submit_act, notify_act_worker_disconnected,
  renew_mission_lease, tick, terminal_disarm, complete_segment, take_step,
}
use excavator_orin_runtime.Core.Calls.{Method, Makes, By, By-none, By-one}
use excavator_orin_runtime.Core.Calls.Seats.{begin_activation_sink}

abbrev pub rl_seat : Core → Seat
rl_seat c = record { adapter = c.rl; sink = c.sink }

abbrev pub act_seat : Core → Seat
act_seat c = record { adapter = c.act; sink = c.sink }

pub activation-By :
    (m : Method) (b : PolicyBinding) (now : ℕ) (s : Seat)
    → Makes m (History.handed_off b now)
    → By m s.sink (begin_activation b now s).1.sink
unfolding History.step
activation-By m b now s h = elim (begin_activation_sink b now s) [
  | inl e ↦ rw e (By-none m s.sink)
  | inr e ↦ By-one m s.sink (begin_activation b now s).1.sink (History.handed_off b now) h e
]

module _ (c : Core) where
  pub observe_telemetry_sink :
      (f : Telemetry)
      → ((observe_telemetry f c).1.sink ≡ (Observe.observe_telemetry f c.sink).1)
        ⊎ ((observe_telemetry f c).1.sink
            ≡ (begin_activation rl_binding f.receive_ns
                (record { adapter = c.rl; sink = (Observe.observe_telemetry f c.sink).1 })).1.sink)
  unfolding observe_telemetry complete_segment
  observe_telemetry_sink f = ground arith

  pub activate_rl_sink :
      (now : ℕ) → (activate_rl now c).1.sink ≡ (begin_activation rl_binding now (rl_seat c)).1.sink
  unfolding activate_rl
  activate_rl_sink now = ground arith

  pub activate_act_sink :
      (steps : Option ℕ) (now : ℕ)
      → ((activate_act steps now c).1.sink ≡ c.sink)
        ⊎ ((activate_act steps now c).1.sink
            ≡ (begin_activation act_binding now (act_seat c)).1.sink)
  unfolding activate_act
  activate_act_sink steps now = ground arith

  pub submit_act_sink :
      (p : Payload) (now : ℕ)
      → ((submit_act p now c).1.sink ≡ c.sink)
        ⊎ ((submit_act p now c).1.sink ≡ (Candidate.send act_binding p now (act_seat c)).1.sink)
  unfolding submit_act take_step
  submit_act_sink p now = ground arith

  pub worker_lost_sink :
      (now : ℕ)
      → ((notify_act_worker_disconnected now c).1.sink ≡ c.sink)
        ⊎ ((g : ℕ) × ((notify_act_worker_disconnected now c).1.sink
              ≡ (Requests.request_source_stop act_binding g now c.sink).1))
  unfolding notify_act_worker_disconnected
  worker_lost_sink now = elim (Option-cases c.segment.generation) [
    | inl e ↦ inl (ground arith)
    | inr (g, e) ↦ elim (Bool-cases (Requests.is_operational c.sink)) [
      | inl o ↦ inr (g, ground arith)
      | inr o ↦ inl (ground arith)
    ]
  ]

  pub terminal_disarm_sink :
      (now : ℕ)
      → ((terminal_disarm now c).1.sink ≡ c.sink)
        ⊎ ((terminal_disarm now c).1.sink ≡ (Requests.terminal_disarm now c.sink).1)
  unfolding terminal_disarm
  terminal_disarm_sink now = ground arith

  pub renew_sink :
      (lease now : ℕ)
      → ((renew_mission_lease lease now c).1.sink ≡ c.sink)
        ⊎ ((renew_mission_lease lease now c).1.sink ≡ (Requests.terminal_disarm now c.sink).1)
  unfolding renew_mission_lease terminal_disarm
  renew_sink lease now = ground arith

  pub tick_sink :
      (now : ℕ)
      → ((tick now c).1.sink ≡ c.sink)
        ⊎ ((tick now c).1.sink ≡ (Requests.terminal_disarm now c.sink).1)
        ⊎ ((tick now c).1.sink ≡ (Submit.tick now c.sink).1)
  unfolding tick terminal_disarm
  tick_sink now = ground arith
