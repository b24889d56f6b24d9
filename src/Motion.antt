-- ===== src/Motion.antt =====
-- The vocabulary of edge_runtime/resident_motion.py: modes, phases, bindings and candidates.
pub mod Authority
use excavator_orin_runtime.Prelude.{
  ℕ, suc, ◌-◌, ◌^◌, String, Bool, true, false, ◌&&◌, not, Option, none, some, List, [], ◌∷◌,
  if◌then◌else◌, ltb, leb, ◌==◌, length, str_eq, strip, is_empty,
}
use excavator_orin_runtime.Prelude.Float.{
  Float, float_zero, float_eq, is_finite, within, one, manual_limit,
}
use excavator_orin_runtime.Prelude.Fault.{
  Outcome, ok, raised, value_error, empty_source, candidate_generation, candidate_created,
  candidate_valid_until, candidate_validity, chunk_mode, chunk_length, chunk_item, chunk_head,
}

pub data ControlMode : Type 0 where
  manual_action velocity_reference : ControlMode

-- `a is b` of two modes.
abbrev pub mode_eq : ControlMode → ControlMode → Bool
mode_eq manual_action manual_action = true
mode_eq manual_action velocity_reference = false
mode_eq velocity_reference manual_action = false
mode_eq velocity_reference velocity_reference = true

pub data HandoffPhase : Type 0 where
  idle terminal_zero_pending target_zero_pending active : HandoffPhase

-- A value for each axis, in the order of ACTION_ORDER.
pub record Action : Type 0 where
  pub boom : Float
  pub stick : Float
  pub bucket : Float
  pub swing : Float

abbrev pub zero_action : Action
zero_action = record {
  boom = float_zero;
  stick = float_zero;
  bucket = float_zero;
  swing = float_zero;
}

-- `all(test(value) for value in action)`.
abbrev pub all_axes : (Float → Bool) → Action → Bool
all_axes p a = p a.boom && (p a.stick && (p a.bucket && p a.swing))

-- `a == b` of two actions.
unfoldable pub action_eq : Action → Action → Bool
action_eq a b =
    float_eq a.boom b.boom
    && (float_eq a.stick b.stick && (float_eq a.bucket b.bucket && float_eq a.swing b.swing))

unfoldable pub is_zero : Action → Bool
unfolding action_eq
is_zero a = action_eq a zero_action

-- `all(math.isfinite(value) for value in action)`.
unfoldable pub action_finite : Action → Bool
action_finite a = all_axes is_finite a

-- `all(-1.000001 <= value <= 1.000001 for value in action)`.
unfoldable pub within_manual : Action → Bool
within_manual a = all_axes (within manual_limit) a

pub record PolicyBinding : Type 0 where
  pub source : String
  pub mode : ControlMode

-- `PolicyBinding(source, mode)`.
unfoldable pub policy_binding : String → ControlMode → Outcome PolicyBinding
unfolding strip
policy_binding source mode =
    if is_empty (strip source)
    then raised (value_error empty_source)
    else ok (record { source = strip source; mode = mode })

-- `a == b` of two bindings.
abbrev pub binding_eq : PolicyBinding → PolicyBinding → Bool
binding_eq a b = str_eq a.source b.source && mode_eq a.mode b.mode

-- `a == b` where a may be None.
abbrev pub is_binding : Option PolicyBinding → PolicyBinding → Bool
is_binding none b = false
is_binding (some a) b = binding_eq a b

pub record MotionCandidate : Type 0 where
  pub source : String
  pub generation : ℕ
  pub mode : ControlMode
  pub action : Action
  pub created_ns : ℕ
  pub valid_until_ns : ℕ
  pub action_chunk : Option (List Action)

abbrev pub uint64_max : ℕ
uint64_max = 18446744073709551615

abbrev pub act_action_chunk_steps : ℕ
act_action_chunk_steps = 10

-- `_normalized_action`: four values, each finite and in [-1, 1].
unfoldable pub normalized_action : List Float → Outcome Action
normalized_action (b ∷ s ∷ k ∷ w ∷ []) =
    let a : Action = record { boom = b; stick = s; bucket = k; swing = w } in
    if all_axes (λ v. is_finite v && within one v) a then ok a else raised (value_error chunk_item)
normalized_action _ = raised (value_error chunk_item)

-- `tuple(_normalized_action(action) for action in chunk)`.
unfoldable pub normalized_chunk : List (List Float) → Outcome (List Action)
unfolding normalized_action
normalized_chunk [] = ok []
normalized_chunk (r ∷ rs) = elim (normalized_action r) [
  | raised e ↦ raised e
  | ok a ↦ elim (normalized_chunk rs) [ raised e ↦ raised e | ok as' ↦ ok (a ∷ as') ]
]

abbrev head_is : List Action → Action → Bool
head_is [] a = false
head_is (x ∷ xs) a = action_eq x a

-- The checks of a chunk against the candidate's mode and action.
unfoldable pub checked_chunk :
    ControlMode → Action → Option (List (List Float)) → Outcome (Option (List Action))
unfolding normalized_chunk
checked_chunk mode action none = ok none
checked_chunk mode action (some rows) =
    if not (mode_eq mode manual_action)
    then raised (value_error chunk_mode)
    else if not (length rows == act_action_chunk_steps)
    then raised (value_error chunk_length)
    else elim (normalized_chunk rows) [
      | raised e ↦ raised e
      | ok chunk ↦ if head_is chunk action then ok (some chunk) else raised (value_error chunk_head)
    ]

-- `MotionCandidate(...)`; the rows of the chunk are those of the caller, of any length.
unfoldable pub motion_candidate :
    String → ℕ → ControlMode → Action → ℕ → ℕ → Option (List (List Float)) → Outcome MotionCandidate
unfolding checked_chunk
motion_candidate source generation mode action created valid_until rows =
    if is_empty (strip source)
    then raised (value_error empty_source)
    else if ltb uint64_max generation
    then raised (value_error candidate_generation)
    else if ltb uint64_max created
    then raised (value_error candidate_created)
    else if ltb uint64_max valid_until
    then raised (value_error candidate_valid_until)
    else if ltb valid_until created
    then raised (value_error candidate_validity)
    else elim (checked_chunk mode action rows) [
      | raised e ↦ raised e
      | ok chunk ↦ ok (record {
        source = strip source;
        generation = generation;
        mode = mode;
        action = action;
        created_ns = created;
        valid_until_ns = valid_until;
        action_chunk = chunk;
      })
    ]
