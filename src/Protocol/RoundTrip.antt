-- ===== src/Protocol/RoundTrip.antt =====
-- What `decode_motion_candidate` makes of what `encode_motion_candidate` writes, both of
-- edge_runtime/resident_protocol.py.
use excavator_orin_runtime.Prelude.{
  ℕ, ◌≤◌, ◌≡◌, refl, true, false, Option, none, some, List, [], ◌∷◌, arith, all, str_eq, ltb,
  &&-true,
}
use excavator_orin_runtime.Prelude.Float.{Float}
use excavator_orin_runtime.Prelude.Fault.{ok}
use excavator_orin_runtime.Motion.{
  ControlMode, manual_action, velocity_reference, Action, action_finite, MotionCandidate,
  motion_candidate, uint64_max,
}
use excavator_orin_runtime.Json.{
  Json, text, array, object, Members, Payload, unique_keys, unique_items, field, has_fields,
  is_texts,
}
use excavator_orin_runtime.Protocol.{
  read_text, read_natural, read_number, read_mode, read_action, read_row, read_rows, read_chunk,
  read_candidate, read_object, decode_motion_candidate, lookup, candidate_fields,
  max_candidate_bytes,
}
use excavator_orin_runtime.Protocol.Encode.{
  mode_value, action_value, rows_value, chunk_value, candidate_value, chunk_finite,
  encode_motion_candidate,
}

-- The rows of a chunk, as the constructor of a candidate takes them.
abbrev pub action_row : Action → List Float
action_row a = a.boom ∷ a.stick ∷ a.bucket ∷ a.swing ∷ []

abbrev pub chunk_rows : List Action → List (List Float)
chunk_rows [] = []
chunk_rows (a ∷ as') = action_row a ∷ chunk_rows as'

abbrev pub rows_of : Option (List Action) → Option (List (List Float))
rows_of none = none
rows_of (some as') = some (chunk_rows as')

-- A candidate that `MotionCandidate(...)` returned.
abbrev pub IsConstructed : MotionCandidate → Type 0
IsConstructed c =
    motion_candidate c.source c.generation c.mode c.action c.created_ns c.valid_until_ns
      (rows_of c.action_chunk)
    ≡ ok c

action-reads : (a : Action) → action_finite a ≡ true → read_action (array (action_value a)) ≡ ok a
unfolding read_action read_number action_finite
action-reads a h = ground arith

row-reads : (a : Action) → action_finite a ≡ true → read_row (action_value a) ≡ ok (action_row a)
unfolding read_row read_number action_finite
row-reads a h = ground arith

rows-read :
    (as' : List Action)
    → all action_finite as' ≡ true
    → read_rows (rows_value as') ≡ ok (chunk_rows as')
unfolding read_rows
rows-read [] h = refl
rows-read (a ∷ as') h =
    let (f, fs) = &&-true (action_finite a) (all action_finite as') h in
    rw (row-reads a f, rows-read as' fs) refl

chunk-reads :
    (o : Option (List Action)) → chunk_finite o ≡ true → read_chunk (chunk_value o) ≡ ok (rows_of o)
unfolding read_chunk
chunk-reads none h = refl
chunk-reads (some as') h = rw (rows-read as' h) refl

mode-reads : (m : ControlMode) → read_mode (text (mode_value m)) ≡ ok m
unfolding read_mode str_eq
mode-reads manual_action = refl
mode-reads velocity_reference = refl

rows_unique : (as' : List Action) → unique_items (rows_value as') ≡ true
unfolding unique_keys
rows_unique [] = refl
rows_unique (a ∷ as') = rows_unique as'

chunk_unique : (o : Option (List Action)) → unique_keys (chunk_value o) ≡ true
unfolding unique_keys
chunk_unique none = refl
chunk_unique (some as') = rows_unique as'

-- What the construction of a candidate established.
source-reads : (c : MotionCandidate) → IsConstructed c → read_text (text c.source) ≡ ok c.source
unfolding read_text motion_candidate
source-reads c h = ground arith

generation-fits : (c : MotionCandidate) → IsConstructed c → ltb uint64_max c.generation ≡ false
unfolding motion_candidate
generation-fits c h = ground arith

members-read :
    (c : MotionCandidate)
    → IsConstructed c
    → action_finite c.action ≡ true
    → chunk_finite c.action_chunk ≡ true
    → read_candidate (candidate_value c) ≡ ok c
unfolding read_candidate lookup field str_eq candidate_value read_natural is_texts
members-read c h f g =
    rw
      (
        source-reads c h,
        generation-fits c h,
        mode-reads c.mode,
        action-reads c.action f,
        chunk-reads c.action_chunk g,
      )
      h

value_unique : (c : MotionCandidate) → unique_keys (object (candidate_value c)) ≡ true
unfolding unique_keys candidate_value str_eq
value_unique c = rw (chunk_unique c.action_chunk) refl

value-fields : (c : MotionCandidate) → has_fields candidate_fields (candidate_value c) ≡ true
unfolding has_fields candidate_value str_eq
value-fields c = refl

encoded :
    (length_of : Json → ℕ) (c : MotionCandidate) (p : Payload)
    → encode_motion_candidate length_of c ≡ ok p
    → (p.value ≡ some (object (candidate_value c)))
      × (p.size ≡ length_of (object (candidate_value c)))
      × (p.size ≤ max_candidate_bytes)
      × (action_finite c.action ≡ true)
      × (chunk_finite c.action_chunk ≡ true)
unfolding encode_motion_candidate
encoded length_of c p h = (ground arith, ground arith, ground arith, ground arith, ground arith)

decodes :
    (p : Payload) (ms : Members) {c : MotionCandidate}
    → p.value ≡ some (object ms)
    → 1 ≤ p.size
    → p.size ≤ max_candidate_bytes
    → unique_keys (object ms) ≡ true
    → has_fields candidate_fields ms ≡ true
    → read_candidate ms ≡ ok c
    → decode_motion_candidate p ≡ ok c
unfolding decode_motion_candidate read_object
decodes p ms v l u k f r = ground arith

-- Any candidate that was constructed and that is encoded decodes to itself, if `json.dumps` writes
-- no empty text.
pub decode-encode :
    (length_of : Json → ℕ)
    → ((v : Json) → 1 ≤ length_of v)
    → (c : MotionCandidate) → IsConstructed c
    → (p : Payload) → encode_motion_candidate length_of c ≡ ok p
    → decode_motion_candidate p ≡ ok c
decode-encode length_of some_text c h p e =
    let (v, l, u, f, g) = encoded length_of c p e in
    decodes p (candidate_value c) v (omega (arith, l, some_text (object (candidate_value c)))) u
      (value_unique c) (value-fields c) (members-read c h f g)
