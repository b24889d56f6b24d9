-- ===== src/Commands/Examples.antt =====
-- The theorem about the frames of edge_runtime/resident_commands.py at a concrete input.
use excavator_orin_runtime.Prelude.{◌+◌, ◌%◌, ◌≡◌, refl}
use excavator_orin_runtime.Prelude.Float.{float_zero, float_of, pos, is_finite}
use excavator_orin_runtime.Motion.{velocity_reference, Action, action_finite}
use excavator_orin_runtime.Commands.{Frame, velocity, Encoder, encode}
use excavator_orin_runtime.Commands.Codec.{frame_mode, frame_action, frame_seq, encode_reads_back}

abbrev boom_up : Action
boom_up = record {
  boom = float_of (pos 1);
  stick = float_zero;
  bucket = float_zero;
  swing = float_zero;
}

abbrev last_number : Encoder
last_number = record { next_sequence = 4294967295 }

abbrev sent : Frame
sent = velocity (record {
  boom_mps = float_of (pos 1);
  stick_mps = float_zero;
  bucket_mps = float_zero;
  swing_radps = float_zero;
  command_seq = 4294967295;
  source_stamp_ms = 7;
})

encode_reads_back_example :
    (frame_mode sent ≡ velocity_reference)
    × (frame_action sent ≡ boom_up)
    × (frame_seq sent ≡ 4294967295)
    × ((encode velocity_reference boom_up 7000000 last_number).1.next_sequence
        ≡ (4294967295 + 1) % 4294967296)
unfolding encode action_finite is_finite float_of
encode_reads_back_example = encode_reads_back velocity_reference boom_up 7000000 last_number refl
