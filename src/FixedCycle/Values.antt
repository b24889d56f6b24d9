-- ===== src/FixedCycle/Values.antt =====
-- edge_runtime/resident_fixed_cycle.py: the readers of identifiers, texts, bounded integers and
-- finite floats at the end of the file.
use Prim.Native.Char.{code}
use excavator_orin_runtime.Prelude.{
  ℕ, suc, ◌*◌, ◌^◌, ◌≤◌, ◌≡◌, refl, String, Bool, true, false, ◌&&◌, ◌||◌, not, none, some, List,
  [], ◌∷◌, if◌then◌else◌, ltb, leb, ◌==◌, strip, is_empty, arith,
}
use excavator_orin_runtime.Prelude.Float.{
  pos, negsuc, Float, finite, float_zero, float_le, float_eq, is_finite,
}
use excavator_orin_runtime.Prelude.Fault.{
  Outcome, ok, raised, value_error, overflow_error, number_overflow, safe_identifier, blank_text,
  integer_bounds, number_finite, number_sign, sha256_text, point_shape, waypoint_list,
}
use excavator_orin_runtime.Protocol.{◌>>=◌, ◌>>◌, check}
use excavator_orin_runtime.Json.{
  Json, null, truth, int, real, text, array, object, Items, nil, cons, float_of_int,
}

is_alphanumeric : ℕ → Bool
is_alphanumeric c = leb b'A' c && leb c b'Z' || leb b'a' c && leb c b'z' || leb b'0' c && leb c b'9'

is_safe : ℕ → Bool
unfolding is_alphanumeric
is_safe c = is_alphanumeric c || c == b'_' || c == b'.' || c == b':' || c == b'-'

is_hex : ℕ → Bool
is_hex c = leb b'0' c && leb c b'9' || leb b'a' c && leb c b'f'

unfoldable pub all_chars : (ℕ → Bool) → String → Bool
all_chars p String.[] = true
all_chars p (String.◌∷◌ c s) = p (code c) && all_chars p s

unfoldable pub text_length : String → ℕ
text_length String.[] = 0
text_length (String.◌∷◌ c s) = suc (text_length s)

-- `_SAFE_ID.fullmatch`.
unfoldable pub is_safe_id : String → Bool
unfolding is_alphanumeric is_safe all_chars text_length
is_safe_id String.[] = false
is_safe_id (String.◌∷◌ c s) =
    is_alphanumeric (code c) && (all_chars is_safe s && leb (text_length s) 127)

-- `_SHA256.fullmatch`.
unfoldable pub is_sha256 : String → Bool
unfolding is_hex all_chars text_length
is_sha256 s = text_length s == 64 && all_chars is_hex s

-- `_identifier`.
unfoldable pub identifier : String → Outcome String
identifier s = if is_safe_id s then ok s else raised (value_error safe_identifier)

unfoldable pub read_identifier : Json → Outcome String
unfolding identifier
read_identifier (text s) = identifier s
read_identifier _ = raised (value_error safe_identifier)

-- `_text`.
unfoldable pub read_text : Json → Outcome String
read_text (text s) = if is_empty (strip s) then raised (value_error blank_text) else ok s
read_text _ = raised (value_error blank_text)

unfoldable pub read_sha256 : Json → Outcome String
read_sha256 (text s) = if is_sha256 s then ok s else raised (value_error sha256_text)
read_sha256 _ = raised (value_error sha256_text)

-- `_integer`.
unfoldable pub read_integer : ℕ → ℕ → Json → Outcome ℕ
read_integer minimum maximum (int (pos n)) =
    if leb minimum n && leb n maximum then ok n else raised (value_error integer_bounds)
read_integer minimum maximum _ = raised (value_error integer_bounds)

abbrev finite_only : Float → Outcome Float
finite_only x = if is_finite x then ok x else raised (value_error number_finite)

-- `_finite_float`. Python's float of an integer that is too large raises OverflowError.
unfoldable pub finite_float : Json → Outcome Float
finite_float (int n) = elim (float_of_int n) [
  | none ↦ raised (overflow_error number_overflow)
  | some x ↦ finite_only x
]
finite_float (real x) = finite_only x
finite_float _ = raised (value_error number_finite)

-- `_positive_float`.
unfoldable pub positive_float : Json → Outcome Float
positive_float v = do
  x ← finite_float v
  check (not (float_le x float_zero)) (value_error number_sign)
  ok x

-- `_nonnegative_float`. Of two finite floats, x < y where not y <= x.
unfoldable pub nonnegative_float : Json → Outcome Float
nonnegative_float v = do
  x ← finite_float v
  check (float_le float_zero x) (value_error number_sign)
  ok x

pub record Point : Type 0 where
  pub x : Float
  pub y : Float
  pub z : Float

-- `_fixed_point`, and the check of one waypoint.
unfoldable pub read_point : Json → Outcome Point
read_point (array (cons a (cons b (cons c nil)))) = do
  x ← finite_float a
  y ← finite_float b
  z ← finite_float c
  ok (record { x = x; y = y; z = z })
read_point _ = raised (value_error point_shape)

count_items : Items → ℕ
count_items nil = 0
count_items (cons v is) = suc (count_items is)

read_points : Items → Outcome (List Point)
read_points nil = ok []
read_points (cons v is) = do p ← read_point v; ps ← read_points is; ok (p ∷ ps)

-- `_fixed_waypoints`.
unfoldable pub fixed_waypoints : Json → Outcome (List Point)
unfolding count_items read_points
fixed_waypoints (array is) = do
  check (leb 1 (count_items is) && leb (count_items is) 256) (value_error waypoint_list)
  read_points is
fixed_waypoints _ = raised (value_error waypoint_list)

-- `v == n`, as Python compares a value of any type with an integer.
unfoldable pub equals_integer : Json → ℕ → Bool
equals_integer (int (pos m)) n = m == n
equals_integer (truth b) n = (if b then 1 else 0) == n
equals_integer (real x) n = float_eq x (finite (pos (n * 2 ^ 1074)))
equals_integer _ n = false

-- `isinstance(v, int) and not isinstance(v, bool) and 0 < v < n`.
unfoldable pub is_between_zero_and : ℕ → Json → Bool
is_between_zero_and n (int (pos m)) = ltb 0 m && ltb m n
is_between_zero_and n _ = false

pub read_integer_bounds :
    (lo hi : ℕ) (v : Json) {n : ℕ} → read_integer lo hi v ≡ ok n → (lo ≤ n) × (n ≤ hi)
unfolding read_integer
read_integer_bounds lo hi (int (pos m)) h = ground arith
read_integer_bounds lo hi (int (negsuc m)) h = ground arith
read_integer_bounds lo hi null h = ground arith
read_integer_bounds lo hi (truth b) h = ground arith
read_integer_bounds lo hi (real x) h = ground arith
read_integer_bounds lo hi (text s) h = ground arith
read_integer_bounds lo hi (array is) h = ground arith
read_integer_bounds lo hi (object ms) h = ground arith

identifiers :
    (is_safe_id "dig_point:1.a-b" ≡ true) × (is_safe_id "_a" ≡ false) × (is_safe_id "" ≡ false)
unfolding is_safe_id
identifiers = (refl, refl, refl)
