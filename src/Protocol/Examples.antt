-- ===== src/Protocol/Examples.antt =====
-- The round trip of edge_runtime/resident_protocol.py at a concrete candidate.
use excavator_orin_runtime.Prelude.{ℕ, ◌≡◌, refl, strip, none, some, arith}
use excavator_orin_runtime.Prelude.Float.{is_finite}
use excavator_orin_runtime.Prelude.Fault.{ok}
use excavator_orin_runtime.Motion.{
  velocity_reference, zero_action, action_finite, MotionCandidate, motion_candidate,
}
use excavator_orin_runtime.Json.{Json, object, Payload}
use excavator_orin_runtime.Protocol.{decode_motion_candidate}
use excavator_orin_runtime.Protocol.Encode.{candidate_value, encode_motion_candidate}
use excavator_orin_runtime.Protocol.RoundTrip.{IsConstructed, decode-encode}

abbrev still : MotionCandidate
still = record {
  source = "rl_follow";
  generation = 3;
  mode = velocity_reference;
  action = zero_action;
  created_ns = 5;
  valid_until_ns = 90;
  action_chunk = none;
}

abbrev length_of : Json → ℕ
length_of v = 300

abbrev sent : Payload
sent = record { size = 300; value = some (object (candidate_value still)) }

still-IsConstructed : IsConstructed still
unfolding motion_candidate strip
still-IsConstructed = refl

decode-encode_example : decode_motion_candidate sent ≡ ok still
unfolding encode_motion_candidate action_finite is_finite
decode-encode_example =
    decode-encode length_of (λ v. omega arith) still still-IsConstructed sent refl
