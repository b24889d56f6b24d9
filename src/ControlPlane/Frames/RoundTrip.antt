-- ===== src/ControlPlane/Frames/RoundTrip.antt =====
-- A frame that `_send_json` of edge_runtime/resident_control.py sends, at `_receive_json`.
use excavator_orin_runtime.Prelude.{
  ℕ, ◌+◌, ◌≤◌, ◌≡◌, refl, ap, ◌∙◌, Bool, true, ◌&&◌, List, [], ◌∷◌, ◌++◌, arith, length, ltb, leb,
  Bool-cases, inl, inr,
}
use excavator_orin_runtime.Prelude.Fault.{ok, raised, value_error, frame_size}
use excavator_orin_runtime.Prelude.Proc.{Proc, ensure, ◌>>◌, ◌>>=◌}
use excavator_orin_runtime.ControlPlane.Frames.{
  Arrivals, take, drop, receive_exact, big_endian, receive_frame, size_bytes, send_frame,
  max_frame_bytes, receive_sized,
}
use excavator_orin_runtime.ControlPlane.Frames.Transfer.{
  bytes_of, receive_exact-Delivers, length-append,
}

big_endian-size_bytes : (n : ℕ) → n ≤ max_frame_bytes → big_endian 0 (size_bytes n) ≡ n
big_endian-size_bytes n h = omega arith

take-whole : (xs ys : List ℕ) → take (length xs) (xs ++ ys) ≡ xs
take-whole [] ys = refl
take-whole (x ∷ xs) ys = ap (λ zs. x ∷ zs) (take-whole xs ys)

drop-whole : (xs ys : List ℕ) → drop (length xs) (xs ++ ys) ≡ ys
drop-whole [] ys = refl
drop-whole (x ∷ xs) ys = drop-whole xs ys

-- An exact read of bytes that are there.
receive_exact-whole :
    (xs ys : List ℕ) (a : Arrivals)
    → bytes_of a ≡ xs ++ ys
    → ((receive_exact (length xs) a).0 ≡ ok xs) × (bytes_of (receive_exact (length xs) a).1 ≡ ys)
receive_exact-whole xs ys a e = elim (receive_exact-Delivers (length xs) a) [
  | inl (_, got, left, _) ↦ (
    got ∙ ap ok (ap (take (length xs)) e ∙ take-whole xs ys),
    left ∙ ap (drop (length xs)) e ∙ drop-whole xs ys,
  )
  | inr (few, _) ↦
      let size : length (bytes_of a) ≡ length xs + length ys = ap length e ∙ length-append xs ys in
      absurd (omega arith)
]

-- The sizes that are sent.
sent_sizes :
    (payload wire : List ℕ)
    → send_frame payload ≡ ok wire
    → (1 ≤ length payload)
      × (length payload ≤ max_frame_bytes)
      × (wire ≡ size_bytes (length payload) ++ payload)
unfolding send_frame
sent_sizes payload wire h =
    elim (Bool-cases (leb 1 (length payload) && leb (length payload) max_frame_bytes)) [
      | inl fits ↦
          let writes : send_frame payload ≡ ok (size_bytes (length payload) ++ payload) =
            rw fits refl in
          let same : wire ≡ size_bytes (length payload) ++ payload = cc in
          (ground arith, ground arith, same)
      | inr misfit ↦
          let fails : send_frame payload ≡ raised (value_error frame_size) = rw misfit refl in
          absurd (cc)
    ]

-- A call that returns hands its result on.
bind-ok :
    {S A B : Type 0} (m : Proc S A) (f : A → Proc S B) (s : S) (a : A)
    → (m s).0 ≡ ok a
    → (m >>= f) s ≡ f a (m s).1
bind-ok m f s a e = rw e refl

receive_sized-lem :
    (n : ℕ) → 1 ≤ n → n ≤ max_frame_bytes → receive_sized (size_bytes n) ≡ receive_exact n
unfolding receive_sized
receive_sized-lem n low high =
    let size : big_endian 0 (size_bytes n) ≡ n = big_endian-size_bytes n high in
    let fits : (ltb 0 n && leb n max_frame_bytes) ≡ true = ground arith in
    ap
      (λ (k : ℕ).
        ensure (ltb 0 k && leb k max_frame_bytes) (value_error frame_size) >> receive_exact k)
      size
    ∙ ap (λ (b : Bool). ensure b (value_error frame_size) >> receive_exact n) fits

-- A payload that is sent is received, in whatever pieces its frame arrives and whatever follows it:
-- the receiver returns the payload, and what it leaves to be read is what followed.
pub receive_frame-send :
    (payload wire rest : List ℕ) (a : Arrivals)
    → send_frame payload ≡ ok wire
    → bytes_of a ≡ wire ++ rest
    → ((receive_frame a).0 ≡ ok payload) × (bytes_of (receive_frame a).1 ≡ rest)
unfolding receive_frame
receive_frame-send payload wire rest a sent arrives =
    let (low, high, whole) = sent_sizes payload wire sent in
    let header = size_bytes (length payload) in
    let split : bytes_of a ≡ header ++ (payload ++ rest) = arrives ∙ ap (λ ys. ys ++ rest) whole in
    let (got, left) = receive_exact-whole header (payload ++ rest) a split in
    let through : receive_frame a ≡ receive_exact (length payload) (receive_exact 4 a).1 =
      bind-ok (receive_exact 4) receive_sized a header got
      ∙ ap (λ m. m (receive_exact 4 a).1) (receive_sized-lem (length payload) low high) in
    rw through (receive_exact-whole payload rest (receive_exact 4 a).1 left)
