-- ===== src/ControlPlane/Frames/Transfer.antt =====
-- The bytes of the frames of edge_runtime/resident_control.py, in the pieces that they arrive in.
use excavator_orin_runtime.Prelude.{
  ℕ, zero, suc, ◌+◌, ◌-◌, ◌≤◌, ◌<◌, ◌≡◌, refl, sym, ap, ◌∙◌, List, [], ◌∷◌, ◌++◌, arith, length,
  inl, inr, ◌⊎◌,
}
use mathlib.Core.List.{append_assoc, append-nil}
use excavator_orin_runtime.Prelude.Fault.{
  Error, Outcome, ok, raised, value_error, os_error, frame_ended, socket_timeout,
}
use excavator_orin_runtime.ControlPlane.Frames.{
  Arrivals, closed, timed_out, piece, take, drop, put_back, recv, receive_from, receive_exact,
}

-- The bytes that arrive before the connection ends.
abbrev pub bytes_of : Arrivals → List ℕ
bytes_of closed = []
bytes_of timed_out = []
bytes_of (piece x xs a) = (x ∷ xs) ++ bytes_of a

-- What a read past the end raises.
abbrev pub end_error : Arrivals → Error
end_error closed = value_error frame_ended
end_error timed_out = os_error socket_timeout
end_error (piece x xs a) = end_error a

pub length-append : (xs ys : List ℕ) → length (xs ++ ys) ≡ length xs + length ys
length-append [] ys = omega arith
length-append (x ∷ xs) ys = omega (arith, length-append xs ys)

length-take : (n : ℕ) (xs : List ℕ) → length (take n xs) ≤ n
length-take zero xs = omega arith
length-take (suc n) [] = omega arith
length-take (suc n) (x ∷ xs) = omega (arith, length-take n xs)

take-drop : (n : ℕ) (xs : List ℕ) → take n xs ++ drop n xs ≡ xs
take-drop zero xs = refl
take-drop (suc n) [] = refl
take-drop (suc n) (x ∷ xs) = ap (λ ys. x ∷ ys) (take-drop n xs)

put_back-bytes : (xs : List ℕ) (a : Arrivals) → bytes_of (put_back xs a) ≡ xs ++ bytes_of a
put_back-bytes [] a = refl
put_back-bytes (x ∷ xs) a = refl

put_back-end : (xs : List ℕ) (a : Arrivals) → end_error (put_back xs a) ≡ end_error a
put_back-end [] a = refl
put_back-end (x ∷ xs) a = refl

-- The reference: the bytes wanted if there are as many, else the error of the end.
abbrev pub Delivers : ℕ → List ℕ → Arrivals → Outcome (List ℕ) × Arrivals → Type 0
Delivers needed result a x =
    ((needed ≤ length (bytes_of a))
      × (x.0 ≡ ok (result ++ take needed (bytes_of a)))
      × (bytes_of x.1 ≡ drop needed (bytes_of a))
      × (end_error x.1 ≡ end_error a))
    ⊎ ((length (bytes_of a) < needed) × (x.0 ≡ raised (end_error a)))

take-append :
    (n : ℕ) (xs ys : List ℕ) → length xs ≤ n → take n (xs ++ ys) ≡ xs ++ take (n - length xs) ys
take-append n [] ys h = ap (λ (k : ℕ). take k ys) (omega arith)
take-append zero (x ∷ xs) ys h = absurd (omega arith)
take-append (suc n) (x ∷ xs) ys h =
    let e : suc n - suc (length xs) ≡ n - length xs = omega arith in
    rw e (ap (λ zs. x ∷ zs) (take-append n xs ys (omega arith)))

drop-append : (n : ℕ) (xs ys : List ℕ) → length xs ≤ n → drop n (xs ++ ys) ≡ drop (n - length xs) ys
drop-append n [] ys h = ap (λ (k : ℕ). drop k ys) (omega arith)
drop-append zero (x ∷ xs) ys h = absurd (omega arith)
drop-append (suc n) (x ∷ xs) ys h =
    let e : suc n - suc (length xs) ≡ n - length xs = omega arith in
    rw e (drop-append n xs ys (omega arith))

-- What is delivered after a chunk is delivered with it.
Delivers-chunk :
    (needed : ℕ) (result chunk : List ℕ) (a b : Arrivals) (x : Outcome (List ℕ) × Arrivals)
    → length chunk ≤ needed
    → bytes_of a ≡ chunk ++ bytes_of b
    → end_error b ≡ end_error a
    → Delivers (needed - length chunk) (result ++ chunk) b x
    → Delivers needed result a x
Delivers-chunk needed result chunk a b x short same ends (inl (enough, got, left, stays)) =
    let size : length (bytes_of a) ≡ length chunk + length (bytes_of b) =
      rw same (length-append chunk (bytes_of b)) in
    let whole : take needed (bytes_of a) ≡ chunk ++ take (needed - length chunk) (bytes_of b) =
      rw same (take-append needed chunk (bytes_of b) short) in
    let after : drop needed (bytes_of a) ≡ drop (needed - length chunk) (bytes_of b) =
      rw same (drop-append needed chunk (bytes_of b) short) in
    inl (
      omega arith,
      rw whole (got ∙ ap ok (append_assoc result chunk _)),
      left ∙ sym after,
      stays ∙ ends,
    )
Delivers-chunk needed result chunk a b x short same ends (inr (few, got)) =
    let size : length (bytes_of a) ≡ length chunk + length (bytes_of b) =
      rw same (length-append chunk (bytes_of b)) in
    inr (omega arith, got ∙ ap raised ends)

receive_from-Delivers :
    (fuel needed : ℕ) (result : List ℕ) (a : Arrivals)
    → needed < fuel
    → Delivers needed result a (receive_from fuel needed result a)
unfolding receive_from recv
receive_from-Delivers zero needed result a h = absurd (omega arith)
receive_from-Delivers (suc f) zero result a h =
    inl (omega arith, ap ok (sym (append-nil result)), refl, refl)
receive_from-Delivers (suc f) (suc n) result closed h = inr (omega arith, refl)
receive_from-Delivers (suc f) (suc n) result timed_out h = inr (omega arith, refl)
receive_from-Delivers (suc f) (suc n) result (piece x xs a) h =
    let b = put_back (drop n xs) a in
    let chunk = x ∷ take n xs in
    let short : length chunk ≤ suc n = omega (arith, length-take n xs) in
    let same : (x ∷ xs) ++ bytes_of a ≡ chunk ++ bytes_of b = rw (put_back-bytes (drop n xs) a) (
      ap (λ ys. x ∷ ys)
        (ap (λ ys. ys ++ bytes_of a) (sym (take-drop n xs))
          ∙ append_assoc (take n xs) (drop n xs) (bytes_of a))) in
    Delivers-chunk (suc n) result chunk (piece x xs a) b _ short same (put_back-end (drop n xs) a)
      (receive_from-Delivers f (suc n - length chunk) (result ++ chunk) b (omega arith))

-- For every way the bytes arrive in, the loop that reads an exact number of bytes does what the
-- reference does: where as many arrive before the connection ends, it returns the first of them and
-- leaves the others to be read, with the same end; else it raises the error of the end, which is a
-- ValueError of a closed connection or the timeout.
pub receive_exact-Delivers : (size : ℕ) (a : Arrivals) → Delivers size [] a (receive_exact size a)
unfolding receive_exact
receive_exact-Delivers size a = receive_from-Delivers (size + 1) size [] a (omega arith)
