-- ===== src/Ingress/Velocity.antt =====
-- `ResidentVelocityActionAdapter` of edge_runtime/resident_ingress.py: packets of the RL runners.
use excavator_orin_runtime.Prelude.{
  ℕ, ◌+◌, ◌-◌, ◌*◌, String, Bool, true, ◌&&◌, ◌||◌, Option, none, some, List, [], ◌∷◌,
  if◌then◌else◌, leb, ltb, ◌==◌,
}
use excavator_orin_runtime.Prelude.Float.{pos, Float, is_finite}
use excavator_orin_runtime.Prelude.Fault.{
  Error, Outcome, ok, raised, value_error, runtime_error, overflow_error, packet_size, packet_json,
  packet_fields, packet_version, packet_type, packet_order, packet_integer, packet_range,
  packet_sequence, packet_future, packet_expired, packet_action, packet_number, number_overflow,
  rl_not_activated,
}
use excavator_orin_runtime.Motion.{Action, PolicyBinding, motion_candidate, uint64_max}
use excavator_orin_runtime.Json.{
  Json, int, real, array, object, nil, cons, Members, Payload, has_fields, is_text, is_text_list,
  float_of_int,
}
use excavator_orin_runtime.Protocol.{◌>>=◌, ◌>>◌, check, lookup, action_order}
use excavator_orin_runtime.Sink.{WriteResult}
use excavator_orin_runtime.Sink.Submit.{submit_candidate}
use excavator_orin_runtime.Ingress.{Seat, in_sink, set_adapter, revoke}

abbrev pub max_packet_bytes : ℕ
max_packet_bytes = 8192

abbrev pub max_future_skew_ms : ℕ
max_future_skew_ms = 50

abbrev policy_action_fields : List String
policy_action_fields =
    "type" ∷ "schema_version" ∷ "seq" ∷ "stamp_ms" ∷ "action_order" ∷ "action" ∷ "action_type"
    ∷ "valid_for_ms" ∷ []

-- `_integer`, with and without a maximum.
unfoldable pub read_integer : Json → Outcome ℕ
read_integer (int (pos n)) = ok n
read_integer _ = raised (value_error packet_integer)

abbrev bounded : ℕ → ℕ → Outcome ℕ
bounded maximum n = if ltb maximum n then raised (value_error packet_range) else ok n

abbrev finite_value : Float → Outcome Float
finite_value x = if is_finite x then ok x else raised (value_error packet_number)

-- `_finite_number`: here `float(value)` of an integer that no double can hold raises OverflowError.
unfoldable pub read_value : Json → Outcome Float
read_value (int n) = elim (float_of_int n) [
  | none ↦ raised (overflow_error number_overflow)
  | some x ↦ finite_value x
]
read_value (real x) = finite_value x
read_value _ = raised (value_error packet_number)

unfoldable pub read_values : Json → Outcome Action
read_values (array (cons a (cons b (cons c (cons d nil))))) = do
  boom ← read_value a
  stick ← read_value b
  bucket ← read_value c
  swing ← read_value d
  ok (record { boom = boom; stick = stick; bucket = bucket; swing = swing })
read_values _ = raised (value_error packet_action)

abbrev pub follows : ℕ → Option ℕ → Bool
follows seq none = true
follows seq (some last) = ltb last seq

-- A decoded packet, with what is left of its lease.
pub record VelocityAction : Type 0 where
  pub sequence : ℕ
  pub action : Action
  pub remaining_lease_ms : ℕ

unfoldable pub read_packet : Members → ℕ → Option ℕ → Outcome VelocityAction
unfolding lookup read_integer
read_packet ms receive_wall_ms last_sequence = do
  kind ← lookup "type" ms (value_error packet_fields)
  schema ← lookup "schema_version" ms (value_error packet_fields)
  check (is_text kind "policy_action" && is_text schema "1.0") (value_error packet_version)
  action_type ← lookup "action_type" ms (value_error packet_fields)
  check (is_text action_type "normalized_velocity_command") (value_error packet_type)
  order ← lookup "action_order" ms (value_error packet_fields)
  check (is_text_list order action_order) (value_error packet_order)
  seq_value ← lookup "seq" ms (value_error packet_fields)
  sequence ← (do n ← read_integer seq_value; bounded uint64_max n)
  check (follows sequence last_sequence) (value_error packet_sequence)
  stamp_value ← lookup "stamp_ms" ms (value_error packet_fields)
  stamp ← read_integer stamp_value
  valid_value ← lookup "valid_for_ms" ms (value_error packet_fields)
  valid_for ← read_integer valid_value
  check (leb stamp (receive_wall_ms + max_future_skew_ms)) (value_error packet_future)
  check (leb receive_wall_ms (stamp + valid_for)) (value_error packet_expired)
  action_value ← lookup "action" ms (value_error packet_fields)
  action ← read_values action_value
  ok (record {
    sequence = sequence;
    action = action;
    remaining_lease_ms = stamp + valid_for - receive_wall_ms;
  })

unfoldable pub read_packet_object : Json → ℕ → Option ℕ → Outcome VelocityAction
unfolding read_packet
read_packet_object (object ms) wall last =
    if has_fields policy_action_fields ms
    then read_packet ms wall last
    else raised (value_error packet_fields)
read_packet_object _ wall last = raised (value_error packet_fields)

-- `_decode_velocity_action`. Repeated keys are no error here.
unfoldable pub decode_velocity_action : Payload → ℕ → Option ℕ → Outcome VelocityAction
unfolding read_packet_object
decode_velocity_action p receive_wall_ms last_sequence =
    if p.size == 0 || ltb max_packet_bytes p.size
    then raised (value_error packet_size)
    else elim p.value [
      | none ↦ raised (value_error packet_json)
      | some v ↦ read_packet_object v receive_wall_ms last_sequence
    ]

-- `candidate = MotionCandidate(...)`: no handler is around it.
submit_velocity : PolicyBinding → ℕ → VelocityAction → ℕ → Seat → Outcome WriteResult × Seat
submit_velocity b generation v now s =
    elim (motion_candidate b.source generation b.mode v.action now
      (now + v.remaining_lease_ms * 1000000) none) [
        | raised e ↦ (raised e, s)
        | ok c ↦ in_sink (submit_candidate c now) s
      ]

-- The `except ValueError` of `send`: any other exception passes through.
velocity_fault : PolicyBinding → ℕ → ℕ → Error → Seat → Outcome WriteResult × Seat
velocity_fault b generation now (value_error f) s = revoke b generation now (value_error f) s
velocity_fault b generation now e s = (raised e, s)

send_decoded : PolicyBinding → ℕ → ℕ → Outcome VelocityAction → Seat → Outcome WriteResult × Seat
unfolding submit_velocity velocity_fault
send_decoded b generation now (raised e) s = velocity_fault b generation now e s
send_decoded b generation now (ok v) s =
    submit_velocity b generation v now
      (set_adapter (λ a. record a { last_sequence = some v.sequence }) s)

send_as : Option ℕ → PolicyBinding → Payload → ℕ → ℕ → Seat → Outcome WriteResult × Seat
unfolding send_decoded
send_as none b p now wall s = (raised (runtime_error rl_not_activated), s)
send_as (some generation) b p now wall s =
    send_decoded b generation now (decode_velocity_action p wall s.adapter.last_sequence) s

-- `ResidentVelocityActionAdapter.send` at the monotonic and the wall time of the call.
unfoldable pub send : PolicyBinding → Payload → ℕ → ℕ → Seat → Outcome WriteResult × Seat
unfolding send_as
send b p now wall s = send_as s.adapter.generation b p now wall s
