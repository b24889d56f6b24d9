-- ===== src/Sink/Wire.antt =====
-- What a method of edge_runtime/resident_sink.py hands to the serial port.
pub mod Requests
pub mod Observe
pub mod Submit
use excavator_orin_runtime.Prelude.{
  ℕ, ◌+◌, ◌≡◌, refl, ap, ◌∙◌, sym, ◌⊎◌, inl, inr, false, Bool, Option, none, some, List, [], ◌∷◌,
  ◌++◌, arith, Option-cases,
}
use excavator_orin_runtime.Prelude.Fault.{ok, raised, Outcome-cases}
use mathlib.Core.List.{append_assoc}
use mathlib.Core.Path.{subst}
use excavator_orin_runtime.Motion.{ControlMode, Action, zero_action}
use excavator_orin_runtime.Motion.Authority.{Reason, PendingZero, pending_zero}
use excavator_orin_runtime.Commands.{Frame, mask32}
use excavator_orin_runtime.Commands.Codec.{frame_mode, frame_action, frame_seq}
use excavator_orin_runtime.Sink.{Sink}
use excavator_orin_runtime.Sink.Writes.{write_locked, issue_pending_zero, issue, reason_or}
use excavator_orin_runtime.Sink.Writes.States.{awaiting, zero_written, issue_pending_zero_state}
use excavator_orin_runtime.Sink.Writes.Effects.{Handed, write_locked-Handed, write_locked_effect}

abbrev pub All {ℓ κ} : {A : Type ℓ} → (A → Type κ) → List A → Type κ
All P [] = Unit
All P (x ∷ xs) = P x × All P xs

-- Frames, newest first, that carry the sequence numbers from n on; the next one is m.
pub data Consecutive (n : ℕ) : List Frame → ℕ → Type 0 where
  start : Consecutive n [] n
  next :
      {fs : List Frame} {k : ℕ} (f : Frame)
      → Consecutive n fs k
      → frame_seq f ≡ k
      → Consecutive n (f ∷ fs) (mask32 (k + 1))

-- From s to s' the port got frames with Q, under consecutive sequence numbers.
pub record Extends (Q : Frame → Type 0) (s s' : Sink) : Type 0 where
  pub frames : List Frame
  pub wire : s'.port.wire ≡ frames ++ s.port.wire
  pub all : All Q frames
  pub seqs : Consecutive s.encoder.next_sequence frames s'.encoder.next_sequence

pub All-append {ℓ κ} :
    {A : Type ℓ} (P : A → Type κ) (xs ys : List A) → All P xs → All P ys → All P (xs ++ ys)
All-append P [] ys hx hy = hy
All-append P (x ∷ xs) ys hx hy = (hx.0, All-append P xs ys hx.1 hy)

Consecutive-append :
    {n m k : ℕ} {fs gs : List Frame}
    → Consecutive n fs m
    → Consecutive m gs k
    → Consecutive n (gs ++ fs) k
Consecutive-append c start = c
Consecutive-append c (next f d e) = next f (Consecutive-append c d) e

module _ (Q : Frame → Type 0) where
  pub Extends-refl : (s : Sink) → Extends Q s s
  Extends-refl s = record { frames = []; wire = refl; all = tt; seqs = start }

  -- A change of other fields.
  pub Extends-same : (s s' : Sink) → s'.port ≡ s.port → s'.encoder ≡ s.encoder → Extends Q s s'
  Extends-same s s' p e = record {
    frames = [];
    wire = ap (λ q. q.wire) p;
    all = tt;
    seqs = subst (λ x. Consecutive s.encoder.next_sequence [] x.next_sequence) (sym e) start;
  }

  pub Extends-trans : {s t u : Sink} → Extends Q s t → Extends Q t u → Extends Q s u
  Extends-trans {s} {t} {u} a b = record {
    frames = b.frames ++ a.frames;
    wire = b.wire ∙ ap (◌++◌ b.frames) a.wire ∙ sym (append_assoc b.frames a.frames s.port.wire);
    all = All-append Q b.frames a.frames b.all a.all;
    seqs = Consecutive-append a.seqs b.seqs;
  }

  pub write_locked-Extends :
      (m : ControlMode) (a : Action) (now : ℕ) (r : Reason) (acc : Bool) (s : Sink)
      → ((f : Frame) → frame_mode f ≡ m → frame_action f ≡ a → Q f)
      → Extends Q s (write_locked m a now r acc s).1
  write_locked-Extends m a now r acc s q = elim (write_locked-Handed m a now r acc s) [
    | inl (w, e) ↦ record {
      frames = [];
      wire = w;
      all = tt;
      seqs = subst (λ x. Consecutive s.encoder.next_sequence [] x.next_sequence) (sym e) start;
    }
    | inr h ↦ record {
      frames = h.frame ∷ [];
      wire = h.wire;
      all = (q h.frame h.mode h.action, tt);
      seqs =
          subst (λ x. Consecutive s.encoder.next_sequence (h.frame ∷ []) x) (sym h.next)
            (next h.frame start h.seq);
    }
  ]

-- Whatever Q is, if frames that carry the zero action have it.
module _ (Q : Frame → Type 0) (zero_ok : (f : Frame) → frame_action f ≡ zero_action → Q f) where
  pub zero-Extends :
      (m : ControlMode) (now : ℕ) (r : Reason) (acc : Bool) (s : Sink)
      → Extends Q s (write_locked m zero_action now r acc s).1
  zero-Extends m now r acc s =
      write_locked-Extends Q m zero_action now r acc s (λ f _ e. zero_ok f e)

  pub issue_pending_zero-Extends :
      (now : ℕ) (reason : Option Reason) (s : Sink)
      → Extends Q s (issue_pending_zero now reason s).1
  issue_pending_zero-Extends now reason s = elim (issue_pending_zero_state reason now s) [
    | inl e ↦ rw e (Extends-refl Q s)
    | inr (inl e) ↦ rw e (Extends-same Q s (awaiting none s) refl refl)
    | inr (inr (z, inl e)) ↦ rw e (zero-Extends z.mode now (reason_or reason z.purpose) false s)
    | inr (inr (z, inr (p, e))) ↦
        let t = zero_written reason now s z in
        rw e (
          Extends-trans Q (zero-Extends z.mode now (reason_or reason z.purpose) false s)
            (Extends-same Q t (awaiting (some p) t) refl refl))
  ]
