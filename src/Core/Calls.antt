-- ===== src/Core/Calls.antt =====
-- The methods of edge_runtime/resident_core.py as calls on the sink of edge_runtime/resident_sink.py.
pub mod Seats
pub mod Methods
pub mod Refines
use excavator_orin_runtime.Prelude.{ℕ, ◌≡◌, refl, ◌∙◌, ap, sym, Bool, Option, List, [], ◌∷◌, ◌++◌}
use excavator_orin_runtime.Prelude.Fault.{Outcome, ok}
use excavator_orin_runtime.Motion.{PolicyBinding, MotionCandidate}
use excavator_orin_runtime.Json.{Payload}
use excavator_orin_runtime.Protocol.{decode_motion_candidate}
use excavator_orin_runtime.Sink.{Sink, Telemetry}
use excavator_orin_runtime.Sink.Wire.{All, All-append}
use excavator_orin_runtime.Sink.History as History
use excavator_orin_runtime.Core.{Core, rl_binding, act_binding}
use excavator_orin_runtime.Core.Control.{
  initialize, observe_telemetry, invalidate_telemetry, activate_rl, activate_act, submit_act,
  submit_rl, stop_rl, notify_act_worker_disconnected, renew_mission_lease, tick, terminal_disarm,
}

-- The public methods that change the core, those of `rl_action_sink` included.
pub data Method : Type 0 where
  initialized observed : Telemetry → Method
  invalidated : ℕ → Bool → Method
  rl_activated rl_stopped : ℕ → Method
  rl_sent : Payload → (now wall : ℕ) → Method
  act_activated : Option ℕ → ℕ → Method
  act_sent : Payload → ℕ → Method
  worker_lost : ℕ → Method
  renewed : ℕ → ℕ → Method
  ticked disarmed : ℕ → Method

-- The state that a call leaves, also where it raises.
unfoldable pub step : Method → Core → Core
step (initialized f) c = (initialize f c).1
step (observed f) c = (observe_telemetry f c).1
step (invalidated now alive) c = (invalidate_telemetry now alive c).1
step (rl_activated now) c = (activate_rl now c).1
step (rl_stopped now) c = (stop_rl now c).1
step (rl_sent p now wall) c = (submit_rl p now wall c).1
step (act_activated steps now) c = (activate_act steps now c).1
step (act_sent p now) c = (submit_act p now c).1
step (worker_lost now) c = (notify_act_worker_disconnected now c).1
step (renewed lease now) c = (renew_mission_lease lease now c).1
step (ticked now) c = (tick now c).1
step (disarmed now) c = (terminal_disarm now c).1

unfoldable pub run : List Method → Core → Core
run [] c = c
run (m ∷ ms) c = run ms (step m c)

-- Which calls of the sink's methods a method of the core makes.
pub data Makes : Method → History.Method → Type 0 where
  initializes : (f : Telemetry) → Makes (initialized f) (History.initialized f)
  observes : (f : Telemetry) → Makes (observed f) (History.observed f)
  completes : (f : Telemetry) → Makes (observed f) (History.handed_off rl_binding f.receive_ns)
  invalidates :
      (now : ℕ) (alive : Bool) → Makes (invalidated now alive) (History.invalidated now alive)
  hands_to_rl : (now : ℕ) → Makes (rl_activated now) (History.handed_off rl_binding now)
  stops_rl : (g now : ℕ) → Makes (rl_stopped now) (History.source_stopped rl_binding g now)
  submits_rl :
      (p : Payload) (now wall : ℕ) (c : MotionCandidate)
      → c.source ≡ rl_binding.source
      → c.mode ≡ rl_binding.mode
      → Makes (rl_sent p now wall) (History.submitted c now)
  revokes_rl :
      (p : Payload) (now wall g : ℕ)
      → Makes (rl_sent p now wall) (History.source_stopped rl_binding g now)
  hands_to_act :
      (steps : Option ℕ) (now : ℕ)
      → Makes (act_activated steps now) (History.handed_off act_binding now)
  submits_act :
      (p : Payload) (now : ℕ) (c : MotionCandidate)
      → decode_motion_candidate p ≡ ok c
      → Makes (act_sent p now) (History.submitted c now)
  revokes_act :
      (p : Payload) (now g : ℕ) → Makes (act_sent p now) (History.source_stopped act_binding g now)
  loses_worker : (now g : ℕ) → Makes (worker_lost now) (History.source_stopped act_binding g now)
  lease_disarms : (lease now : ℕ) → Makes (renewed lease now) (History.disarmed now)
  ticks : (now : ℕ) → Makes (ticked now) (History.ticked now)
  tick_disarms : (now : ℕ) → Makes (ticked now) (History.disarmed now)
  disarms : (now : ℕ) → Makes (disarmed now) (History.disarmed now)

-- From s to s' by calls that m makes.
pub record By (m : Method) (s s' : Sink) : Type 0 where
  pub calls : List History.Method
  pub made : All (Makes m) calls
  pub result : s' ≡ History.run calls s

pub By-none : (m : Method) (s : Sink) → By m s s
unfolding History.run
By-none m s = record { calls = []; made = tt; result = refl }

pub By-one :
    (m : Method) (s s' : Sink) (k : History.Method) → Makes m k → s' ≡ History.step k s → By m s s'
unfolding History.run
By-one m s s' k h e = record { calls = k ∷ []; made = (h, tt); result = e }

pub run-append :
    (ks ls : List History.Method) (s : Sink)
    → History.run (ks ++ ls) s ≡ History.run ls (History.run ks s)
unfolding History.run
run-append [] ls s = refl
run-append (k ∷ ks) ls s = run-append ks ls (History.step k s)

pub By-trans : {m : Method} {s t u : Sink} → By m s t → By m t u → By m s u
By-trans {m} {s} {t} {u} a b = record {
  calls = a.calls ++ b.calls;
  made = All-append (Makes m) a.calls b.calls a.made b.made;
  result = b.result ∙ ap (History.run b.calls) a.result ∙ sym (run-append a.calls b.calls s);
}
