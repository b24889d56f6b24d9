-- ===== src/ControlPlane/Server/Expiry.antt =====
-- Requests to edge_runtime/resident_control.py among the other calls of the motion core, and the
-- mission lease.
use excavator_orin_runtime.Prelude.{
  ℕ, ◌≡◌, refl, sym, ap, ◌∙◌, true, false, Option, List, [], ◌∷◌, ◌++◌,
}
use excavator_orin_runtime.Prelude.Fault.{Outcome, ok, raised}
use excavator_orin_runtime.Json.{Json}
use excavator_orin_runtime.Core.{Core}
use excavator_orin_runtime.Core.Control.{tick, lease_over, mission_lease_is_active}
use excavator_orin_runtime.Core.Calls.{Method, step, run}
use excavator_orin_runtime.Core.Lease.{IsSound}
use excavator_orin_runtime.Core.Lease.Expiry.{lease_expiry_is_final}
use excavator_orin_runtime.Sink.History.Stopped.{IsStopped}
use excavator_orin_runtime.ControlPlane.{Request}
use excavator_orin_runtime.ControlPlane.Server.{
  Settings, Probes, Gate, Clock, Response, request_of, serve_one,
}
use excavator_orin_runtime.ControlPlane.Server.Serving.{Served, serve_one-Served}

-- What happens to the core: a call of another thread, or a request to the control server.
pub data Event : Type 0 where
  called : Method → Event
  requested : Gate → Probes → Clock → Option Json → Event

module _ (s : Settings) where
  unfoldable pub happen : Event → Core → Core
  happen (called m) c = step m c
  happen (requested g p t frame) c = (serve_one s g p t frame c).1

  unfoldable pub all_happen : List Event → Core → Core
  unfolding happen
  all_happen [] c = c
  all_happen (e ∷ es) c = all_happen es (happen e c)

  run_append : (ks ls : List Method) (c : Core) → run (ks ++ ls) c ≡ run ls (run ks c)
  unfolding run
  run_append [] ls c = refl
  run_append (k ∷ ks) ls c = run_append ks ls (step k c)

  Served-run :
      (g : Gate) (p : Probes) (t : Clock) (c : Core) (o : Outcome Request) (x : Response × Core)
      → Served s g p t c o x
      → (ms : List Method) × (x.1 ≡ run ms c)
  unfolding run
  Served-run g p t c (raised e) x (_, same) = ([], same)
  Served-run g p t c (ok r) x (ms, _, left, _) = (ms, left)

  happen-run : (e : Event) (c : Core) → (ms : List Method) × (happen e c ≡ run ms c)
  unfolding happen run
  happen-run (called m) c = (m ∷ [], refl)
  happen-run (requested g p t frame) c =
      Served-run g p t c (request_of frame) _ (serve_one-Served s g p t frame c)

  all_happen-run : (es : List Event) (c : Core) → (ms : List Method) × (all_happen es c ≡ run ms c)
  unfolding all_happen run
  all_happen-run [] c = ([], refl)
  all_happen-run (e ∷ es) c =
      let (ks, first) = happen-run e c in
      let (ls, rest) = all_happen-run es (happen e c) in
      (ks ++ ls, rest ∙ ap (run ls) first ∙ sym (run_append ks ls c))

  -- Once the mission lease of a sound core is over, its next tick ends the mission, and no request
  -- to the control server revives it: whatever is requested and called afterwards, in any order, the
  -- port gets nothing more, the sink stays disarmed, and at no later time is a lease active.
  pub no_request_revives :
      (c : Core) (now : ℕ) (es : List Event) (later : ℕ)
      → IsSound c
      → lease_over c.lease_deadline_ns now ≡ true
      → let c' = (tick now c).1 in
        IsStopped c'.sink (all_happen es c').sink
        × (mission_lease_is_active later (all_happen es c') ≡ false)
  no_request_revives c now es later v l =
      let (ms, e) = all_happen-run es (tick now c).1 in
      rw e (lease_expiry_is_final c now ms later v l)
