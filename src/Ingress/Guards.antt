-- ===== src/Ingress/Guards.antt =====
-- What the adapters of edge_runtime/resident_ingress.py let through.
use excavator_orin_runtime.Prelude.{
  ℕ, ◌+◌, ◌-◌, ◌≤◌, ◌<◌, ◌≡◌, ◌≢◌, refl, ◌∙◌, ap, ◌⊎◌, inl, inr, String, true, Option, none, some,
  arith, Option-cases,
}
use excavator_orin_runtime.Prelude.Fault.{
  Error, Fault, value_error, runtime_error, os_error, overflow_error, type_error, key_error,
  index_error, zero_division_error, ok, raised, Outcome-cases,
}
use excavator_orin_runtime.Motion.{PolicyBinding, uint64_max}
use excavator_orin_runtime.Prelude.Float.{pos}
use excavator_orin_runtime.Json.{
  Json, null, truth, int, real, text, array, Members, object, Payload, field,
}
use excavator_orin_runtime.Protocol.{lookup}
use excavator_orin_runtime.Sink.Requests.{request_source_stop}
use excavator_orin_runtime.Ingress.{Seat, revoke}
use excavator_orin_runtime.Ingress.Velocity as Velocity
use excavator_orin_runtime.Ingress.Velocity.{
  VelocityAction, read_packet, read_packet_object, decode_velocity_action, max_packet_bytes,
  follows, read_integer, max_future_skew_ms,
}

abbrev pub NewerThan : Option ℕ → ℕ → Type 0
NewerThan none n = Unit
NewerThan (some last) n = last < n

follows-NewerThan : (last : Option ℕ) (n : ℕ) → follows n last ≡ true → NewerThan last n
follows-NewerThan none n h = tt
follows-NewerThan (some m) n h = ground arith

-- The number in a field of a packet.
abbrev number_in : Option Json → ℕ
number_in none = 0
number_in (some (int (pos n))) = n
number_in (some _) = 0

unfoldable pub number_at : String → Members → ℕ
number_at k ms = number_in (field k ms)

-- What a packet says that is let through at this wall time after this last sequence number.
pub record Fits (ms : Members) (wall : ℕ) (last : Option ℕ) (v : VelocityAction) : Type 0 where
  pub sequence : v.sequence ≡ number_at "seq" ms
  pub bound : v.sequence ≤ uint64_max
  pub newer : NewerThan last v.sequence
  pub not_future : number_at "stamp_ms" ms ≤ wall + max_future_skew_ms
  pub not_expired : wall ≤ number_at "stamp_ms" ms + number_at "valid_for_ms" ms
  pub lease : v.remaining_lease_ms ≡ number_at "stamp_ms" ms + number_at "valid_for_ms" ms - wall

read_packet-Fits :
    (ms : Members) (wall : ℕ) (last : Option ℕ) (v : VelocityAction)
    → read_packet ms wall last ≡ ok v
    → Fits ms wall last v
unfolding read_packet number_at lookup read_integer
read_packet-Fits ms wall last v h = record {
  sequence = ground arith;
  bound = ground arith;
  newer = follows-NewerThan last v.sequence (ground arith);
  not_future = ground arith;
  not_expired = ground arith;
  lease = ground arith;
}

value_decodes :
    (p : Payload) (wall : ℕ) (last : Option ℕ) (x : Json) (v : VelocityAction)
    → p.value ≡ some x
    → decode_velocity_action p wall last ≡ ok v
    → (read_packet_object x wall last ≡ ok v) × (1 ≤ p.size) × (p.size ≤ max_packet_bytes)
unfolding decode_velocity_action
value_decodes p wall last x v e h = (ground arith, ground arith, ground arith)

object_decodes :
    (x : Json) (wall : ℕ) (last : Option ℕ) (v : VelocityAction)
    → read_packet_object x wall last ≡ ok v
    → (ms : Members) × (x ≡ object ms) × Fits ms wall last v
unfolding read_packet_object
object_decodes (object ms) wall last v h =
    (ms, refl, read_packet-Fits ms wall last v (ground arith))
object_decodes null wall last v h = absurd (ground arith)
object_decodes (truth b) wall last v h = absurd (ground arith)
object_decodes (int n) wall last v h = absurd (ground arith)
object_decodes (real r) wall last v h = absurd (ground arith)
object_decodes (text t) wall last v h = absurd (ground arith)
object_decodes (array is) wall last v h = absurd (ground arith)

-- A packet that decodes is a JSON object of 1 to 8192 bytes whose sequence number fits 64 bits and
-- is above the last one, whose stamp is at most 50 ms ahead and whose validity is not over; what
-- is left of its lease is counted from the wall time of its receipt.
pub decode-Fits :
    (p : Payload) (wall : ℕ) (last : Option ℕ) {v : VelocityAction}
    → decode_velocity_action p wall last ≡ ok v
    → (ms : Members) × (p.value ≡ some (object ms))
      × (1 ≤ p.size)
      × (p.size ≤ max_packet_bytes)
      × Fits ms wall last v
unfolding decode_velocity_action
decode-Fits p wall last {v} h = elim (Option-cases p.value) [
  | inl e ↦ absurd (ground arith)
  | inr (x, e) ↦
      let r = value_decodes p wall last x v e h in
      let (ms, o, f) = object_decodes x wall last v r.0 in (ms, e ∙ ap some o, r.1, r.2, f)
]

-- What one call of `send` does to an activated velocity adapter and its sink. A packet that is
-- refused as a value stops the source and forgets the activation; any other exception leaves both
-- as they were; a packet that decodes keeps the activation and its sequence number becomes the
-- last one, which it exceeds.
pub velocity_send_lem :
    (b : PolicyBinding) (p : Payload) (now wall : ℕ) (s : Seat) (g : ℕ)
    → s.adapter.generation ≡ some g
    → let s' = (Velocity.send b p now wall s).1 in
      let d = decode_velocity_action p wall s.adapter.last_sequence in
      ((f : Fault) × (d ≡ raised (value_error f))
        × (s'.adapter.generation ≡ none)
        × (s'.sink ≡ (request_source_stop b g now s.sink).1))
      ⊎ ((e : Error) × ((f : Fault) → e ≢ value_error f) × (d ≡ raised e) × (s' ≡ s))
      ⊎ ((v : VelocityAction) × (d ≡ ok v)
          × (s'.adapter.generation ≡ some g)
          × (s'.adapter.last_sequence ≡ some v.sequence)
          × NewerThan s.adapter.last_sequence v.sequence)
unfolding Velocity.send revoke
velocity_send_lem b p now wall s g e =
    elim (Outcome-cases (decode_velocity_action p wall s.adapter.last_sequence)) [
      | inr (value_error f, h) ↦ inl (f, h, ground arith, ground arith)
      | inr (runtime_error x, h) ↦
          inr (inl (runtime_error x, (λ f q. absurd (ground arith)), h, ground arith))
      | inr (os_error x, h) ↦
          inr (inl (os_error x, (λ f q. absurd (ground arith)), h, ground arith))
      | inr (overflow_error x, h) ↦
          inr (inl (overflow_error x, (λ f q. absurd (ground arith)), h, ground arith))
      | inr (type_error x, h) ↦
          inr (inl (type_error x, (λ f q. absurd (ground arith)), h, ground arith))
      | inr (key_error x, h) ↦
          inr (inl (key_error x, (λ f q. absurd (ground arith)), h, ground arith))
      | inr (index_error x, h) ↦
          inr (inl (index_error x, (λ f q. absurd (ground arith)), h, ground arith))
      | inr (zero_division_error x, h) ↦
          inr (inl (zero_division_error x, (λ f q. absurd (ground arith)), h, ground arith))
      | inl (v, h) ↦
          let (_, _, _, _, fits) = decode-Fits p wall s.adapter.last_sequence h in
          inr (inr (v, h, ground arith, ground arith, fits.newer))
    ]
