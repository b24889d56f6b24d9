-- ===== src/ControlPlane/Frames.antt =====
-- edge_runtime/resident_control.py: the frames of the socket, `_send_json` and `_receive_json` up to
-- the text of the payload. What `recv` gives is an oracle: the bytes arrive in any pieces, and the
-- connection ends closed or in a timeout.
pub mod Transfer
pub mod RoundTrip
use excavator_orin_runtime.Prelude.{
  ℕ, zero, suc, ◌+◌, ◌-◌, ◌*◌, ◌/◌, ◌%◌, Bool, true, false, ◌&&◌, not, List, [], ◌∷◌, ◌++◌,
  if◌then◌else◌, ltb, leb, ◌==◌, length,
}
use excavator_orin_runtime.Prelude.Fault.{
  Error, Outcome, ok, raised, value_error, os_error, frame_size, frame_ended, socket_timeout,
}
use excavator_orin_runtime.Prelude.Proc.{Proc, return, raise, ensure, ◌>>=◌, ◌>>◌}

abbrev pub max_frame_bytes : ℕ
max_frame_bytes = 4096

-- A piece is not empty, as `recv` blocks until bytes arrive.
pub data Arrivals : Type 0 where
  closed timed_out : Arrivals
  piece : ℕ → List ℕ → Arrivals → Arrivals

abbrev pub take : ℕ → List ℕ → List ℕ
take zero xs = []
take (suc n) [] = []
take (suc n) (x ∷ xs) = x ∷ take n xs

abbrev pub drop : ℕ → List ℕ → List ℕ
drop zero xs = xs
drop (suc n) [] = []
drop (suc n) (x ∷ xs) = drop n xs

abbrev pub put_back : List ℕ → Arrivals → Arrivals
put_back [] a = a
put_back (x ∷ xs) a = piece x xs a

-- `connection.recv(n)`.
unfoldable pub recv : ℕ → Proc Arrivals (List ℕ)
recv n closed = (ok [], closed)
recv n timed_out = (raised (os_error socket_timeout), timed_out)
recv n (piece x xs a) = (ok (take n (x ∷ xs)), put_back (drop n (x ∷ xs)) a)

abbrev pub went_on : (List ℕ → Proc Arrivals (List ℕ)) → List ℕ → Proc Arrivals (List ℕ)
went_on rest [] = raise (value_error frame_ended)
went_on rest (x ∷ xs) = rest (x ∷ xs)

-- The loop of `_receive_exact`, with the bytes still needed: each round gets at least one.
unfoldable pub receive_from : (fuel needed : ℕ) → List ℕ → Proc Arrivals (List ℕ)
receive_from zero needed result a = (raised (value_error frame_ended), a)
receive_from (suc f) zero result a = (ok result, a)
receive_from (suc f) (suc n) result a =
    (recv (suc n) >>= went_on (λ chunk. receive_from f (suc n - length chunk) (result ++ chunk))) a

-- `_receive_exact`.
unfoldable pub receive_exact : ℕ → Proc Arrivals (List ℕ)
receive_exact size = receive_from (size + 1) size []

-- `int.from_bytes(header, "big")`.
abbrev pub big_endian : ℕ → List ℕ → ℕ
big_endian n [] = n
big_endian n (b ∷ bs) = big_endian (n * 256 + b) bs

-- The rest of `_receive_json` after the header, up to the decoding of the payload.
unfoldable pub receive_sized : List ℕ → Proc Arrivals (List ℕ)
receive_sized header =
    let size = big_endian 0 header in
    ensure (ltb 0 size && leb size max_frame_bytes) (value_error frame_size) >> receive_exact size

-- `_receive_json`, up to the decoding of the payload.
unfoldable pub receive_frame : Proc Arrivals (List ℕ)
receive_frame = receive_exact 4 >>= receive_sized

-- `len(payload).to_bytes(4, "big")`.
abbrev pub size_bytes : ℕ → List ℕ
size_bytes n = (n / 16777216 % 256) ∷ (n / 65536 % 256) ∷ (n / 256 % 256) ∷ (n % 256) ∷ []

-- What `_send_json` sends of a payload.
unfoldable pub send_frame : List ℕ → Outcome (List ℕ)
send_frame payload =
    if leb 1 (length payload) && leb (length payload) max_frame_bytes
    then ok (size_bytes (length payload) ++ payload)
    else raised (value_error frame_size)
