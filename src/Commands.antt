-- ===== src/Commands.antt =====
-- edge_runtime/resident_commands.py: one command sequence for both schemas of the firmware.
-- A frame is the object that the source dumps to one line of JSON.
pub mod Codec
mod Examples
use excavator_orin_runtime.Prelude.{
  ℕ, ◌+◌, ◌/◌, ◌%◌, ◌^◌, Bool, true, false, ◌&&◌, not, if◌then◌else◌, leb,
}
use excavator_orin_runtime.Prelude.Float.{Float, float_zero}
use excavator_orin_runtime.Prelude.Fault.{
  Outcome, ok, raised, value_error, uint32_range, manual_range, action_not_finite,
}
use excavator_orin_runtime.Prelude.Proc.{Proc, read, assign, ensure, ◌>>=◌, ◌>>◌}
use excavator_orin_runtime.Motion.{
  ControlMode, manual_action, velocity_reference, Action, action_finite, within_manual,
}

abbrev pub uint32_max : ℕ
uint32_max = 4294967295

-- `n & UINT32_MAX`.
abbrev pub mask32 : ℕ → ℕ
mask32 n = n % 4294967296

pub record ManualFrame : Type 0 where
  pub x1 : Float
  pub y1 : Float
  pub z1 : Float
  pub x2 : Float
  pub y2 : Float
  pub z2 : Float
  pub command_seq : ℕ
  pub source_stamp_ms : ℕ

pub record VelocityFrame : Type 0 where
  pub boom_mps : Float
  pub stick_mps : Float
  pub bucket_mps : Float
  pub swing_radps : Float
  pub command_seq : ℕ
  pub source_stamp_ms : ℕ

pub data Frame : Type 0 where
  manual : ManualFrame → Frame
  velocity : VelocityFrame → Frame

pub record Encoder : Type 0 where
  pub next_sequence : ℕ

abbrev pub new_encoder : Encoder
new_encoder = record { next_sequence = 0 }

unfoldable pub synchronize : ℕ → Bool → Proc Encoder ℕ
synchronize command_rx_seq command_received = do
  ensure (leb command_rx_seq uint32_max) (value_error uint32_range)
  assign (λ e. record e {
    next_sequence = if command_received then mask32 (command_rx_seq + 1) else 0;
  })
  read (λ e. e.next_sequence)

-- The axes of the firmware's joysticks: swing on X1, stick on Y1, bucket on X2, boom on Y2.
abbrev payload : ControlMode → Action → ℕ → ℕ → Frame
payload manual_action a stamp seq = manual (record {
  x1 = a.swing;
  y1 = a.stick;
  z1 = float_zero;
  x2 = a.bucket;
  y2 = a.boom;
  z2 = float_zero;
  command_seq = seq;
  source_stamp_ms = mask32 (stamp / 1000000);
})
payload velocity_reference a stamp seq = velocity (record {
  boom_mps = a.boom;
  stick_mps = a.stick;
  bucket_mps = a.bucket;
  swing_radps = a.swing;
  command_seq = seq;
  source_stamp_ms = mask32 (stamp / 1000000);
})

abbrev in_range : ControlMode → Action → Bool
in_range manual_action a = within_manual a
in_range velocity_reference a = true

unfoldable pub encode : ControlMode → Action → ℕ → Proc Encoder Frame
encode mode action timestamp = do
  ensure (action_finite action) (value_error action_not_finite)
  sequence ← read (λ e. e.next_sequence)
  ensure (in_range mode action) (value_error manual_range)
  assign (λ e. record e { next_sequence = mask32 (sequence + 1) })
  read (λ e. payload mode action timestamp sequence)
