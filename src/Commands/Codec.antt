-- ===== src/Commands/Codec.antt =====
-- What the firmware reads from the frames of edge_runtime/resident_commands.py.
use excavator_orin_runtime.Prelude.{ℕ, ◌+◌, ◌%◌, ◌≡◌, arith}
use excavator_orin_runtime.Prelude.Fault.{Error, ok, raised}
use excavator_orin_runtime.Prelude.Float.{within-zero, is_finite, manual_limit}
use excavator_orin_runtime.Motion.{
  ControlMode, manual_action, velocity_reference, Action, action_finite, within_manual, zero_action,
}
use excavator_orin_runtime.Commands.{Frame, manual, velocity, Encoder, encode}

-- The schema says the mode.
abbrev pub frame_mode : Frame → ControlMode
frame_mode (manual f) = manual_action
frame_mode (velocity f) = velocity_reference

-- The axes in ACTION_ORDER.
abbrev pub frame_action : Frame → Action
frame_action (manual f) = record { boom = f.y2; stick = f.y1; bucket = f.x2; swing = f.x1 }
frame_action (velocity f) = record {
  boom = f.boom_mps;
  stick = f.stick_mps;
  bucket = f.bucket_mps;
  swing = f.swing_radps;
}

abbrev pub frame_seq : Frame → ℕ
frame_seq (manual f) = f.command_seq
frame_seq (velocity f) = f.command_seq

-- An encoded frame reads back as the mode and the action that were encoded, under the encoder's
-- sequence number, which then advances by one modulo 2 ^ 32.
pub encode_reads_back :
    (m : ControlMode) (a : Action) (t : ℕ) (e : Encoder) {f : Frame}
    → (encode m a t e).0 ≡ ok f
    → (frame_mode f ≡ m)
      × (frame_action f ≡ a)
      × (frame_seq f ≡ e.next_sequence)
      × ((encode m a t e).1.next_sequence ≡ (e.next_sequence + 1) % 4294967296)
unfolding encode
encode_reads_back m a t e h = ground arith

pub encode_raised :
    (m : ControlMode) (a : Action) (t : ℕ) (e : Encoder) {x : Error}
    → (encode m a t e).0 ≡ raised x
    → (encode m a t e).1 ≡ e
unfolding encode
encode_raised m a t e h = ground arith

-- The zero action can be encoded in either mode.
pub encode-zero :
    (m : ControlMode) (t : ℕ) (e : Encoder) {x : Error}
    → (encode m zero_action t e).0 ≡ raised x
    → ⊥
unfolding encode action_finite is_finite within_manual
encode-zero m t e h = ground (arith, within-zero manual_limit)
