-- ===== src/ControlPlane/Client/Fields.antt =====
-- The fields of a response of edge_runtime/resident_control.py, written and read.
use excavator_orin_runtime.Prelude.{
  ℕ, ◌≡◌, refl, ◌∙◌, String, false, Option, none, some, arith, str_eq, str_eq_refl, strip, is_empty,
  strip-strip, Bool-cases, inl, inr,
}
use excavator_orin_runtime.Prelude.Float.{Float}
use excavator_orin_runtime.Prelude.Fault.{Outcome, ok}
use excavator_orin_runtime.Motion.{
  HandoffPhase, idle, terminal_zero_pending, target_zero_pending, active, PolicyBinding,
  policy_binding, ControlMode, manual_action, velocity_reference,
}
use excavator_orin_runtime.Json.{Json, text, field, has_fields}
use excavator_orin_runtime.Protocol.{◌>>=◌, lookup, read_mode}
use excavator_orin_runtime.Protocol.Encode.{mode_value}
use excavator_orin_runtime.FixedCycle.Ensures.{split_reading}
use excavator_orin_runtime.ControlPlane.{
  Command, status, renew_lease, activate_rl, activate_act, terminal_disarm, command_name,
  read_command, uint64, optional, nonnegative, segment_max_steps, binding,
}
use excavator_orin_runtime.ControlPlane.Server.{
  ErrorCode, invalid_request, command_failed, internal_error,
}
use excavator_orin_runtime.ControlPlane.Encode.{
  phase_value, optional_value, binding_value, number_value, float_value, code_value,
}
use excavator_orin_runtime.ControlPlane.Client.{
  read_phase, read_uint64, read_segment_steps, read_latency, read_source, read_binding,
  read_optional, read_code,
}

pub phase-reads : (p : HandoffPhase) → read_phase (text (phase_value p)) ≡ ok p
unfolding read_phase str_eq
phase-reads idle = refl
phase-reads terminal_zero_pending = refl
phase-reads target_zero_pending = refl
phase-reads active = refl

mode-reads : (m : ControlMode) → read_mode (text (mode_value m)) ≡ ok m
unfolding read_mode str_eq
mode-reads manual_action = refl
mode-reads velocity_reference = refl

pub command-reads : (c : Command) → read_command (text (command_name c)) ≡ ok c
unfolding read_command str_eq
command-reads status = refl
command-reads renew_lease = refl
command-reads activate_rl = refl
command-reads activate_act = refl
command-reads terminal_disarm = refl

pub code-reads : (c : ErrorCode) → read_code (text (code_value c)) ≡ ok c
unfolding read_code str_eq
code-reads invalid_request = refl
code-reads command_failed = refl
code-reads internal_error = refl

pub ok-injective : {A : Type 0} {a b : A} → ◌≡◌ {A = Outcome A} (ok a) (ok b) → a ≡ b
ok-injective h = cc

-- A reading of what passed a check.
pub uint64_fixed : (n : ℕ) {m : ℕ} → uint64 n ≡ ok m → uint64 m ≡ ok m
unfolding uint64
uint64_fixed n h = ground arith

steps_fixed : (n : ℕ) {m : ℕ} → segment_max_steps n ≡ ok m → segment_max_steps m ≡ ok m
unfolding segment_max_steps
steps_fixed n h = ground arith

latency_fixed : (x : Float) {y : Float} → nonnegative x ≡ ok y → nonnegative y ≡ ok y
unfolding nonnegative
latency_fixed x h = ground arith

-- A source that a binding accepts is stripped and not blank.
source-reads :
    (s : String) → is_empty (strip s) ≡ false → read_source (text (strip s)) ≡ ok (strip s)
unfolding read_source
source-reads s e = rw (strip-strip s) (rw (e, str_eq_refl (strip s)) refl)

binding-reads : (b d : PolicyBinding) → binding b ≡ ok d → read_binding (binding_value d) ≡ ok d
unfolding binding policy_binding read_binding lookup field str_eq has_fields
binding-reads b d h = elim (Bool-cases (is_empty (strip b.source))) [
  | inl e ↦ absurd (let q = rw e at h in cc)
  | inr e ↦
      let q = rw e at h in
      let same : ◌≡◌ {A = PolicyBinding} (record { source = strip b.source; mode = b.mode }) d =
        cc in
      rw (← same) (rw (source-reads b.source e) (rw (mode-reads b.mode) refl))
]

module _ {A : Type 0} (make : A → Outcome A) (value : A → Json) (read : Json → Outcome A)
    (reads : (a b : A) → make a ≡ ok b → read (value b) ≡ ok b)
    (some_value : (a : A)
      → read_optional read (value a) ≡ (read (value a) >>= λ b. ok (some b))) where
  optional-reads :
      (o : Option A) (p : Option A)
      → optional make o ≡ ok p
      → read_optional read (optional_value value p) ≡ ok p
  unfolding read_optional
  optional-reads none p h = let e : none ≡ p = cc in rw (← e) refl
  optional-reads (some a) p h =
      let (b, q, m) = split_reading (make a) _ h in
      let e : some b ≡ p = cc in rw (← e) (some_value b ∙ (rw (reads a b m) refl))

pub number-reads :
    (o p : Option ℕ)
    → optional uint64 o ≡ ok p
    → read_optional read_uint64 (optional_value number_value p) ≡ ok p
unfolding read_optional read_uint64
number-reads =
    optional-reads uint64 number_value read_uint64 (λ a b h. uint64_fixed a h) (λ a. refl)

pub steps-read :
    (o p : Option ℕ)
    → optional segment_max_steps o ≡ ok p
    → read_optional read_segment_steps (optional_value number_value p) ≡ ok p
unfolding read_optional read_segment_steps
steps-read =
    optional-reads segment_max_steps number_value read_segment_steps (λ a b h. steps_fixed a h)
      (λ a. refl)

pub latency-reads :
    (o p : Option Float)
    → optional nonnegative o ≡ ok p
    → read_optional read_latency (optional_value float_value p) ≡ ok p
unfolding read_optional read_latency
latency-reads =
    optional-reads nonnegative float_value read_latency (λ a b h. latency_fixed a h) (λ a. refl)

pub bindings-read :
    (o p : Option PolicyBinding)
    → optional binding o ≡ ok p
    → read_optional read_binding (optional_value binding_value p) ≡ ok p
unfolding read_optional
bindings-read = optional-reads binding binding_value read_binding binding-reads (λ a. refl)
