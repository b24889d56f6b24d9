-- ===== src/Ingress.antt =====
-- edge_runtime/resident_ingress.py: the adapters between the policy workers and the sink.
pub mod Velocity
pub mod Candidate
pub mod Candidates
pub mod Guards
mod Examples
use excavator_orin_runtime.Prelude.{
  ℕ, ◌+◌, ◌-◌, ◌*◌, String, Bool, true, false, ◌&&◌, ◌||◌, not, Option, none, some, List, [], ◌∷◌,
  if◌then◌else◌, leb, ltb, ◌==◌,
}
use excavator_orin_runtime.Prelude.Fault.{Error, Outcome, ok, raised}
use excavator_orin_runtime.Prelude.Proc.{
  Proc, return, raise, read, call, assign, within_part, ◌>>=◌, ◌>>◌,
}
use excavator_orin_runtime.Motion.{ControlMode, PolicyBinding, is_binding}
use excavator_orin_runtime.Sink.{Sink}
use excavator_orin_runtime.Sink.Requests.{request_handoff, request_source_stop, is_current}

-- `_AdapterState`.
pub record Adapter : Type 0 where
  pub generation : Option ℕ
  pub last_sequence : Option ℕ

abbrev pub new_adapter : Adapter
new_adapter = record { generation = none; last_sequence = none }

-- An adapter with the sink that it was given.
pub record Seat : Type 0 where
  pub adapter : Adapter
  pub sink : Sink

abbrev pub in_sink {ℓ} : {A : Type ℓ} → (Sink → Outcome A × Sink) → Seat → Outcome A × Seat
in_sink m s = let (r, k) = m s.sink in (r, record s { sink = k })

abbrev pub set_adapter : (Adapter → Adapter) → Seat → Seat
set_adapter f s = record s { adapter = f s.adapter }

abbrev pub without_generation : Adapter → Adapter
without_generation a = record a { generation = none }

-- The activation whose generation is still the sink's.
abbrev still_current : Option ℕ → Sink → PolicyBinding → Bool
still_current none k b = false
still_current (some g) k b = is_current k.authority b g

activate : PolicyBinding → ℕ → Proc Seat ℕ
activate b now = do
  generation ← in_sink (request_handoff b now)
  assign (set_adapter (λ _. record { generation = some generation; last_sequence = none }))
  return generation

abbrev generation_or : Option ℕ → Proc Seat ℕ → Proc Seat ℕ
generation_or none m = m
generation_or (some g) m = return g

-- `begin_activation`, the same method in both adapters.
unfoldable pub begin_activation : PolicyBinding → ℕ → Proc Seat ℕ
unfolding activate
begin_activation b now = do
  s ← read (λ s. s)
  if still_current s.adapter.generation s.sink b
      then generation_or s.adapter.generation (activate b now)
      else activate b now

-- After `try: request_source_stop(...)` its own exception wins over the one that is handled.
abbrev after_stop {ℓ} : {A : Type ℓ} → Outcome Bool → Error → Outcome A
after_stop (ok _) e = raised e
after_stop (raised x) e = raised x

-- The handler of a contract violation: stop the source, forget the generation, raise on.
unfoldable pub revoke {ℓ} : {A : Type ℓ} → PolicyBinding → ℕ → ℕ → Error → Seat → Outcome A × Seat
revoke b generation now e s =
    let (r, k) = request_source_stop b generation now s.sink in
    (after_stop r e, record { adapter = without_generation s.adapter; sink = k })

-- `ResidentVelocityActionAdapter.request_stop`.
stop_generation : Option ℕ → PolicyBinding → ℕ → Proc Seat Bool
stop_generation none b now = return false
stop_generation (some g) b now = do
  stopped ← in_sink (request_source_stop b g now)
  assign (set_adapter without_generation)
  return stopped

unfoldable pub request_stop : PolicyBinding → ℕ → Proc Seat Bool
unfolding stop_generation
request_stop b now = do s ← read (λ s. s); stop_generation s.adapter.generation b now
