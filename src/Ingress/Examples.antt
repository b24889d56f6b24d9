-- ===== src/Ingress/Examples.antt =====
-- The theorems about edge_runtime/resident_ingress.py at concrete inputs: a packet and a candidate.
use excavator_orin_runtime.Prelude.{◌≤◌, ◌≡◌, ◌≢◌, ◌⊎◌, refl, str_eq, strip, none, some}
use excavator_orin_runtime.Prelude.Float.{float_zero, pos, is_finite}
use excavator_orin_runtime.Prelude.Fault.{Error, Fault, ok, raised, value_error}
use excavator_orin_runtime.Motion.{
  velocity_reference, manual_action, zero_action, PolicyBinding, MotionCandidate, motion_candidate,
}
use excavator_orin_runtime.Json.{
  Json, null, int, real, text, array, object, nil, cons, Members, end, member, Payload, has_fields,
  unique_keys, is_texts,
}
use excavator_orin_runtime.Protocol.{decode_motion_candidate}
use excavator_orin_runtime.Sink.{complete, new_sink}
use excavator_orin_runtime.Sink.Requests.{request_source_stop}
use excavator_orin_runtime.Ingress.{Seat}
use excavator_orin_runtime.Ingress.Velocity as Velocity
use excavator_orin_runtime.Ingress.Velocity.{
  VelocityAction, decode_velocity_action, max_packet_bytes, read_packet, read_packet_object,
}
use excavator_orin_runtime.Ingress.Candidate as Candidate
use excavator_orin_runtime.Ingress.Candidates.{Sent, candidate_send_lem}
use excavator_orin_runtime.Ingress.Guards.{Fits, NewerThan, decode-Fits, velocity_send_lem}

abbrev rl : PolicyBinding
rl = record { source = "rl_follow"; mode = velocity_reference }

abbrev act : PolicyBinding
act = record { source = "act_dig"; mode = manual_action }

abbrev zeros : Json
zeros = array (
    cons (real float_zero)
      (cons (real float_zero) (cons (real float_zero) (cons (real float_zero) nil))))

abbrev order : Json
order =
    array
      (cons (text "boom") (cons (text "stick") (cons (text "bucket") (cons (text "swing") nil))))

abbrev members : Members
members = member "type" (text "policy_action") (
    member "schema_version" (text "1.0") (
      member "seq" (int (pos 8)) (
        member "stamp_ms" (int (pos 1000)) (
          member "action_order" order (
            member "action" zeros (
              member "action_type" (text "normalized_velocity_command")
                (member "valid_for_ms" (int (pos 200)) end)))))))

abbrev packet : Payload
packet = record { size = 220; value = some (object members) }

abbrev decoded : VelocityAction
decoded = record { sequence = 8; action = zero_action; remaining_lease_ms = 150 }

packet_decodes : decode_velocity_action packet 1050 (some 7) ≡ ok decoded
unfolding decode_velocity_action has_fields str_eq is_texts Velocity.read_values Velocity.read_value
    is_finite
packet_decodes = refl

decode-Fits_example :
    (ms : Members) × (packet.value ≡ some (object ms))
    × (1 ≤ 220)
    × (220 ≤ max_packet_bytes)
    × Fits ms 1050 (some 7) decoded
decode-Fits_example = decode-Fits packet 1050 (some 7) packet_decodes

abbrev seat : Seat
seat = record {
  adapter = record { generation = some 2; last_sequence = some 7 };
  sink = new_sink 1000 50 "excavator" (λ _. complete);
}

velocity_send_lem_example :
    let s' = (Velocity.send rl packet 10 1050 seat).1 in
    let d = decode_velocity_action packet 1050 (some 7) in
    ((f : Fault) × (d ≡ raised (value_error f))
      × (s'.adapter.generation ≡ none)
      × (s'.sink ≡ (request_source_stop rl 2 10 seat.sink).1))
    ⊎ ((e : Error) × ((f : Fault) → e ≢ value_error f) × (d ≡ raised e) × (s' ≡ seat))
    ⊎ ((v : VelocityAction) × (d ≡ ok v)
        × (s'.adapter.generation ≡ some 2)
        × (s'.adapter.last_sequence ≡ some v.sequence)
        × NewerThan (some 7) v.sequence)
velocity_send_lem_example = velocity_send_lem rl packet 10 1050 seat 2 refl

abbrev candidate_members : Members
candidate_members = member "schema_version" (text "resident_policy_candidate.v2") (
    member "source" (text "act_dig") (
      member "control_generation" (int (pos 1)) (
        member "mode" (text "manual_action") (
          member "action_order" order (
            member "action" zeros (
              member "action_chunk" null (
                member "created_monotonic_ns" (int (pos 5))
                  (member "valid_until_monotonic_ns" (int (pos 90)) end))))))))

abbrev candidate_payload : Payload
candidate_payload = record { size = 300; value = some (object candidate_members) }

abbrev old_candidate : MotionCandidate
old_candidate = record {
  source = "act_dig";
  generation = 1;
  mode = manual_action;
  action = zero_action;
  created_ns = 5;
  valid_until_ns = 90;
  action_chunk = none;
}

candidate_decodes : decode_motion_candidate candidate_payload ≡ ok old_candidate
unfolding decode_motion_candidate unique_keys str_eq has_fields is_texts strip is_finite
    motion_candidate
candidate_decodes = refl

candidate_send_lem_example :
    Sent act 2 10 seat
      (decode_motion_candidate candidate_payload)
      (Candidate.send act candidate_payload 10 seat)
candidate_send_lem_example = candidate_send_lem act candidate_payload 10 seat 2 refl
