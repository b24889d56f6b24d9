-- ===== src/Prelude/Float.antt =====
-- IEEE doubles as the motion path reads them: each finite double is a whole multiple of 2 ^ -1074,
-- so comparisons of doubles are comparisons of integers. The path computes no sums of floats.
-- -0.0 is the same value as 0.0, as it is for `==` and `<=`.
use Prim.Native.Nat.{ℕ, zero, suc, ◌*◌, ◌^◌}
use mathlib.Core.Path.{◌≡◌, refl}
use mathlib.Core.Bool.{Bool, true, false, ◌&&◌}
use native.Mathlib.Omega.{arith}
use excavator_orin_runtime.Prelude.Tests.{leb, ◌==◌}

-- `negsuc n` is -(n + 1).
pub data ℤ : Type 0 where
  pos : ℕ → ℤ
  negsuc : ℕ → ℤ

abbrev pub leb_ℤ : ℤ → ℤ → Bool
leb_ℤ (pos a) (pos b) = leb a b
leb_ℤ (pos a) (negsuc b) = false
leb_ℤ (negsuc a) (pos b) = true
leb_ℤ (negsuc a) (negsuc b) = leb b a

abbrev pub eq_ℤ : ℤ → ℤ → Bool
eq_ℤ (pos a) (pos b) = a == b
eq_ℤ (pos a) (negsuc b) = false
eq_ℤ (negsuc a) (pos b) = false
eq_ℤ (negsuc a) (negsuc b) = a == b

abbrev pub neg_ℕ : ℕ → ℤ
neg_ℕ n = elim n [ zero ↦ pos 0 | suc m ↦ negsuc m ]

-- `finite z` is the number z * 2 ^ -1074.
pub data Float : Type 0 where
  nan pos_inf neg_inf : Float
  finite : ℤ → Float

abbrev pub float_zero : Float
float_zero = finite (pos 0)

-- A whole number as a float (exact up to 2 ^ 53).
unfoldable pub float_of : ℤ → Float
float_of (pos n) = finite (pos (n * 2 ^ 1074))
float_of (negsuc n) = finite (neg_ℕ (suc n * 2 ^ 1074))

-- `math.isfinite`.
unfoldable pub is_finite : Float → Bool
is_finite (finite z) = true
is_finite _ = false

-- `a == b`: false where either is nan.
unfoldable pub float_eq : Float → Float → Bool
float_eq (finite a) (finite b) = eq_ℤ a b
float_eq pos_inf pos_inf = true
float_eq neg_inf neg_inf = true
float_eq _ _ = false

-- `a <= b`: false where either is nan.
unfoldable pub float_le : Float → Float → Bool
float_le (finite a) (finite b) = leb_ℤ a b
float_le nan b = false
float_le neg_inf nan = false
float_le neg_inf _ = true
float_le (finite a) pos_inf = true
float_le (finite a) _ = false
float_le pos_inf pos_inf = true
float_le pos_inf _ = false

pub float_eq-zero : (a : Float) → float_eq a float_zero ≡ true → a ≡ float_zero
unfolding float_eq
float_eq-zero nan h = ground arith
float_eq-zero pos_inf h = ground arith
float_eq-zero neg_inf h = ground arith
float_eq-zero (finite (pos n)) h = ground arith
float_eq-zero (finite (negsuc n)) h = ground arith

-- 1.0 and the double nearest to 1.000001, in units of 2 ^ -1074.
unfoldable pub one : ℕ
one = 2 ^ 1074

unfoldable pub manual_limit : ℕ
manual_limit = 4503604130970123 * 2 ^ 1022

-- `-limit <= value <= limit`.
unfoldable pub within : ℕ → Float → Bool
unfolding float_le
within limit v = float_le (finite (neg_ℕ limit)) v && float_le v (finite (pos limit))

-- A value within limits is finite.
pub within-finite : (limit : ℕ) (v : Float) → within limit v ≡ true → is_finite v ≡ true
unfolding within is_finite
within-finite limit (finite z) h = refl
within-finite limit nan h = ground arith
within-finite limit pos_inf h = ground arith
within-finite limit neg_inf h = ground arith

-- 0.0 lies within every limits.
pub within-zero : (limit : ℕ) → within limit float_zero ≡ true
unfolding within
within-zero limit = ground arith

within-tests :
    (within manual_limit (float_of (pos 1)) ≡ true) × (within one (float_of (pos 2)) ≡ false)
unfolding within manual_limit one float_of
within-tests = (refl, refl)

-- `abs(value)`.
unfoldable pub float_abs : Float → Float
float_abs nan = nan
float_abs pos_inf = pos_inf
float_abs neg_inf = pos_inf
float_abs (finite (pos n)) = finite (pos n)
float_abs (finite (negsuc n)) = finite (pos (suc n))
