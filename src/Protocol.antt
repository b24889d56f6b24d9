-- ===== src/Protocol.antt =====
-- edge_runtime/resident_protocol.py: the candidates of the policy workers.
pub mod Encode
pub mod RoundTrip
mod Examples
use excavator_orin_runtime.Prelude.{
  ℕ, String, Bool, true, false, ◌||◌, Option, none, some, List, [], ◌∷◌, if◌then◌else◌, ltb, ◌==◌,
  strip, is_empty, str_eq,
}
use excavator_orin_runtime.Prelude.Float.{pos, Float, is_finite}
use excavator_orin_runtime.Prelude.Fault.{
  Error, Outcome, ok, raised, value_error, payload_size, payload_json, payload_fields,
  payload_schema, payload_order, payload_text, payload_integer, payload_range, payload_mode,
  payload_action, payload_chunk, payload_number,
}
use excavator_orin_runtime.Motion.{
  ControlMode, manual_action, velocity_reference, Action, MotionCandidate, motion_candidate,
  uint64_max,
}
use excavator_orin_runtime.Json.{
  Json, null, int, real, text, array, object, Items, nil, cons, Members, Payload, unique_keys,
  field, has_fields, is_text, is_text_list, float_of_int,
}

-- Reading fails or gives a value; the `do` blocks of this file chain such readings.
infixl 10 ◌>>=◌
abbrev pub ◌>>=◌ {ℓ κ} : {A : Type ℓ} {B : Type κ} → Outcome A → (A → Outcome B) → Outcome B
ok a >>= f = f a
raised e >>= f = raised e

abbrev pub check : Bool → Error → Outcome (Unit {0})
check true e = ok tt
check false e = raised e

infixl 10 ◌>>◌
abbrev pub ◌>>◌ {ℓ} : {B : Type ℓ} → Outcome (Unit {0}) → Outcome B → Outcome B
m >> k = m >>= λ _. k

abbrev pub action_order : List String
action_order = "boom" ∷ "stick" ∷ "bucket" ∷ "swing" ∷ []

abbrev pub candidate_schema_version : String
candidate_schema_version = "resident_policy_candidate.v2"

abbrev pub max_candidate_bytes : ℕ
max_candidate_bytes = 4096

abbrev pub candidate_fields : List String
candidate_fields =
    "schema_version" ∷ "source" ∷ "control_generation" ∷ "mode" ∷ "action_order" ∷ "action"
    ∷ "action_chunk" ∷ "created_monotonic_ns" ∷ "valid_until_monotonic_ns" ∷ []

-- `value[key]` of a dict whose fields were checked.
unfoldable pub lookup : String → Members → Error → Outcome Json
unfolding field
lookup k ms e = elim (field k ms) [ none ↦ raised e | some v ↦ ok v ]

-- `_text`.
unfoldable pub read_text : Json → Outcome String
read_text (text s) = if is_empty (strip s) then raised (value_error payload_text) else ok (strip s)
read_text _ = raised (value_error payload_text)

-- `_nonnegative_integer` with no maximum.
unfoldable pub read_natural : Json → Outcome ℕ
read_natural (int (pos n)) = ok n
read_natural _ = raised (value_error payload_integer)

abbrev at_most : ℕ → ℕ → Outcome ℕ
at_most maximum n = if ltb maximum n then raised (value_error payload_range) else ok n

abbrev finite_or : Float → Error → Outcome Float
finite_or x e = if is_finite x then ok x else raised e

-- `_finite_number`: an integer that no double can hold is refused like any other value.
unfoldable pub read_number : Json → Outcome Float
read_number (int n) = elim (float_of_int n) [
  | none ↦ raised (value_error payload_number)
  | some x ↦ finite_or x (value_error payload_number)
]
read_number (real x) = finite_or x (value_error payload_number)
read_number _ = raised (value_error payload_number)

-- `ControlMode(value)`.
unfoldable pub read_mode : Json → Outcome ControlMode
read_mode (text s) =
    if str_eq s "manual_action"
    then ok manual_action
    else if str_eq s "velocity_reference"
    then ok velocity_reference
    else raised (value_error payload_mode)
read_mode _ = raised (value_error payload_mode)

unfoldable pub read_action : Json → Outcome Action
unfolding read_number
read_action (array (cons a (cons b (cons c (cons d nil))))) = do
  boom ← read_number a
  stick ← read_number b
  bucket ← read_number c
  swing ← read_number d
  ok (record { boom = boom; stick = stick; bucket = bucket; swing = swing })
read_action _ = raised (value_error payload_action)

unfoldable pub read_row : Items → Outcome (List Float)
unfolding read_number
read_row nil = ok []
read_row (cons v is) = do x ← read_number v; xs ← read_row is; ok (x ∷ xs)

-- A row that is no list becomes the empty tuple.
abbrev row_of : Json → Outcome (List Float)
row_of (array is) = read_row is
row_of _ = ok []

unfoldable pub read_rows : Items → Outcome (List (List Float))
unfolding read_row
read_rows nil = ok []
read_rows (cons v is) = do r ← row_of v; rs ← read_rows is; ok (r ∷ rs)

abbrev some_rows : Outcome (List (List Float)) → Outcome (Option (List (List Float)))
some_rows (ok rs) = ok (some rs)
some_rows (raised e) = raised e

unfoldable pub read_chunk : Json → Outcome (Option (List (List Float)))
unfolding read_rows
read_chunk null = ok none
read_chunk (array is) = some_rows (read_rows is)
read_chunk _ = raised (value_error payload_chunk)

-- The checks and readings of the decoded object.
unfoldable pub read_candidate : Members → Outcome MotionCandidate
unfolding lookup read_text read_natural read_mode read_action read_chunk
read_candidate ms = do
  schema ← lookup "schema_version" ms (value_error payload_fields)
  check (is_text schema candidate_schema_version) (value_error payload_schema)
  order ← lookup "action_order" ms (value_error payload_fields)
  check (is_text_list order action_order) (value_error payload_order)
  source_value ← lookup "source" ms (value_error payload_fields)
  source ← read_text source_value
  generation_value ← lookup "control_generation" ms (value_error payload_fields)
  generation ← (do n ← read_natural generation_value; at_most uint64_max n)
  created_value ← lookup "created_monotonic_ns" ms (value_error payload_fields)
  created ← read_natural created_value
  until_value ← lookup "valid_until_monotonic_ns" ms (value_error payload_fields)
  valid_until ← read_natural until_value
  mode_value ← lookup "mode" ms (value_error payload_fields)
  mode ← read_mode mode_value
  action_value ← lookup "action" ms (value_error payload_fields)
  action ← read_action action_value
  chunk_value ← lookup "action_chunk" ms (value_error payload_fields)
  rows ← read_chunk chunk_value
  motion_candidate source generation mode action created valid_until rows

unfoldable pub read_object : Json → Outcome MotionCandidate
unfolding read_candidate
read_object (object ms) =
    if has_fields candidate_fields ms
    then read_candidate ms
    else raised (value_error payload_fields)
read_object _ = raised (value_error payload_fields)

unfoldable pub decode_motion_candidate : Payload → Outcome MotionCandidate
unfolding read_object
decode_motion_candidate p =
    if p.size == 0 || ltb max_candidate_bytes p.size
    then raised (value_error payload_size)
    else elim p.value [
      | none ↦ raised (value_error payload_json)
      | some v ↦ if unique_keys v then read_object v else raised (value_error payload_json)
    ]
