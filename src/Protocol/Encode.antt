-- ===== src/Protocol/Encode.antt =====
-- `encode_motion_candidate` of edge_runtime/resident_protocol.py. The length of what `json.dumps`
-- writes is an argument: the text itself is the standard library's.
use excavator_orin_runtime.Prelude.{
  ℕ, String, Bool, true, ◌&&◌, not, Option, none, some, List, [], ◌∷◌, if◌then◌else◌, ltb, all,
}
use excavator_orin_runtime.Prelude.Float.{pos}
use excavator_orin_runtime.Prelude.Fault.{
  Outcome, ok, raised, value_error, payload_number, payload_size,
}
use excavator_orin_runtime.Motion.{
  ControlMode, manual_action, velocity_reference, Action, action_finite, MotionCandidate,
}
use excavator_orin_runtime.Json.{
  Json, null, int, real, text, array, object, Items, nil, cons, Members, end, member, Payload,
}
use excavator_orin_runtime.Protocol.{candidate_schema_version, max_candidate_bytes}

-- `mode.value`.
abbrev pub mode_value : ControlMode → String
mode_value manual_action = "manual_action"
mode_value velocity_reference = "velocity_reference"

-- `list(ACTION_ORDER)`.
abbrev pub order_value : Items
order_value =
    cons (text "boom") (cons (text "stick") (cons (text "bucket") (cons (text "swing") nil)))

-- `list(action)`.
abbrev pub action_value : Action → Items
action_value a =
    cons (real a.boom) (cons (real a.stick) (cons (real a.bucket) (cons (real a.swing) nil)))

abbrev pub rows_value : List Action → Items
rows_value [] = nil
rows_value (a ∷ as') = cons (array (action_value a)) (rows_value as')

abbrev pub chunk_value : Option (List Action) → Json
chunk_value none = null
chunk_value (some as') = array (rows_value as')

-- The dict that is dumped.
unfoldable pub candidate_value : MotionCandidate → Members
candidate_value c = member "schema_version" (text candidate_schema_version) (
    member "source" (text c.source) (
      member "control_generation" (int (pos c.generation)) (
        member "mode" (text (mode_value c.mode)) (
          member "action_order" (array order_value) (
            member "action" (array (action_value c.action)) (
              member "action_chunk" (chunk_value c.action_chunk) (
                member "created_monotonic_ns" (int (pos c.created_ns))
                  (member "valid_until_monotonic_ns" (int (pos c.valid_until_ns)) end))))))))

abbrev pub chunk_finite : Option (List Action) → Bool
chunk_finite none = true
chunk_finite (some as') = all action_finite as'

-- `json.dumps(..., allow_nan=False)` raises on any value that is not finite.
unfoldable pub encode_motion_candidate : (Json → ℕ) → MotionCandidate → Outcome Payload
unfolding candidate_value
encode_motion_candidate length_of c =
    if not (action_finite c.action && chunk_finite c.action_chunk)
    then raised (value_error payload_number)
    else if ltb max_candidate_bytes (length_of (object (candidate_value c)))
    then raised (value_error payload_size)
    else ok (record {
      size = length_of (object (candidate_value c));
      value = some (object (candidate_value c));
    })
