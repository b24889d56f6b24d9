-- ===== src/Core/Budget/Adapters.antt =====
-- What the methods of edge_runtime/resident_ingress.py's adapters do to their own generation.
use excavator_orin_runtime.Prelude.{
  ℕ, ◌<◌, ◌≡◌, ◌⊎◌, inl, inr, none, some, arith, Option-cases, Bool-cases,
}
use excavator_orin_runtime.Prelude.Fault.{Error, ok, raised}
use excavator_orin_runtime.Motion.{PolicyBinding}
use excavator_orin_runtime.Json.{Payload}
use excavator_orin_runtime.Sink.Requests as Requests
use excavator_orin_runtime.Ingress.{Seat, begin_activation, request_stop, revoke}
use excavator_orin_runtime.Ingress.Velocity as Velocity
use excavator_orin_runtime.Ingress.Candidate as Candidate
use excavator_orin_runtime.Core.Budget.Facts.{handoff_returns}

-- An activation that returned this generation: the adapter's and the authority's, either still
-- current, with nothing changed, or new.
pub record Activated (s s' : Seat) (g : ℕ) : Type 0 where
  pub adapter : s'.adapter.generation ≡ some g
  pub authority : s'.sink.authority.generation ≡ g
  pub origin :
      ((s.adapter.generation ≡ some g) × (s'.sink ≡ s.sink)) ⊎ (s.sink.authority.generation < g)

module _ (b : PolicyBinding) (now : ℕ) (s : Seat) where
  handed_over :
      (begin_activation b now s).0 ≡ (Requests.request_handoff b now s.sink).0
      → (begin_activation b now s).1.sink ≡ (Requests.request_handoff b now s.sink).1
      → (g : ℕ) → (Requests.request_handoff b now s.sink).0 ≡ ok g
      → (begin_activation b now s).1.adapter.generation ≡ some g
      → Activated s (begin_activation b now s).1 g
  handed_over o k g h a =
      let r = handoff_returns b now s.sink h in
      record { adapter = a; authority = ground (arith, r, k); origin = inr (r.1) }

  pub activation-Activated :
      (g : ℕ) → (begin_activation b now s).0 ≡ ok g → Activated s (begin_activation b now s).1 g
  unfolding begin_activation
  activation-Activated g h = elim (Option-cases s.adapter.generation) [
    | inl e ↦ handed_over (ground arith) (ground arith) g (ground arith) (ground arith)
    | inr (a, e) ↦ elim (Bool-cases (Requests.is_current s.sink.authority b a)) [
      | inl i ↦ record {
        adapter = ground arith;
        authority = ground arith;
        origin = inl (ground arith, ground arith);
      }
      | inr i ↦ handed_over (ground arith) (ground arith) g (ground arith) (ground arith)
    ]
  ]

  pub activation_raised :
      (x : Error)
      → (begin_activation b now s).0 ≡ raised x
      → (begin_activation b now s).1.adapter ≡ s.adapter
  unfolding begin_activation
  activation_raised x h = ground arith

pub velocity_send_generation :
    (b : PolicyBinding) (p : Payload) (now wall : ℕ) (s : Seat)
    → ((Velocity.send b p now wall s).1.adapter.generation ≡ none)
      ⊎ ((Velocity.send b p now wall s).1.adapter.generation ≡ s.adapter.generation)
unfolding Velocity.send revoke
velocity_send_generation b p now wall s = ground arith

pub candidate_send_generation :
    (b : PolicyBinding) (p : Payload) (now : ℕ) (s : Seat)
    → ((Candidate.send b p now s).1.adapter.generation ≡ none)
      ⊎ ((Candidate.send b p now s).1.adapter.generation ≡ s.adapter.generation)
unfolding Candidate.send revoke
candidate_send_generation b p now s = ground arith

pub stop_generation :
    (b : PolicyBinding) (now : ℕ) (s : Seat)
    → ((request_stop b now s).1.adapter.generation ≡ none)
      ⊎ ((request_stop b now s).1.adapter.generation ≡ s.adapter.generation)
unfolding request_stop
stop_generation b now s = ground arith
