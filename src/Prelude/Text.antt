-- ===== src/Prelude/Text.antt =====
-- `str.strip` of Python, and equality of texts.
use Prim.Native.Nat.{ℕ}
use Prim.Native.Char.{code}
use Prim.Native.String.{String}
use mathlib.Core.Path.{◌≡◌, refl, ap, ◌∙◌}
use mathlib.Core.Logic.{◌↔◌, inl, inr}
use native.Mathlib.Omega.{arith}
use mathlib.Core.Bool.{Bool, true, false, not, ◌&&◌, ◌||◌}
use text.Mathlib.Text.{◌==◌ as text_eq}
use text.Mathlib.TextEquality.{eq_iff}
use excavator_orin_runtime.Prelude.Tests.{Bool-cases, ◌==◌, leb, if◌then◌else◌}

-- Shut, so that the proofs see two texts only as equal or not.
unfoldable pub str_eq : String → String → Bool
str_eq a b = text_eq a b

pub str_eq_iff : (a b : String) → (str_eq a b ≡ true) ↔ (a ≡ b)
unfolding str_eq
str_eq_iff a b = eq_iff a b

pub str_eq_refl : (a : String) → str_eq a a ≡ true
str_eq_refl a = (str_eq_iff a a).1 refl

-- The white space of `str.isspace`.
is_space : ℕ → Bool
is_space c =
    leb 9 c && leb c 13
    || leb 28 c && leb c 32
    || c == 0x85
    || c == 0xa0
    || c == 0x1680
    || leb 0x2000 c && leb c 0x200a
    || c == 0x2028
    || c == 0x2029
    || c == 0x202f
    || c == 0x205f
    || c == 0x3000

unfoldable pub lstrip : String → String
unfolding is_space
lstrip String.[] = String.[]
lstrip (String.◌∷◌ c s) = let rest = lstrip s in if is_space (code c) then rest else String.◌∷◌ c s

abbrev pub is_empty : String → Bool
is_empty String.[] = true
is_empty (String.◌∷◌ c s) = false

-- A character is dropped when it and all that follow it are white space.
unfoldable pub rstrip : String → String
unfolding is_space
rstrip String.[] = String.[]
rstrip (String.◌∷◌ c s) =
    let rest = rstrip s in
    if is_empty rest && is_space (code c) then String.[] else String.◌∷◌ c rest

unfoldable pub strip : String → String
unfolding lstrip rstrip
strip s = rstrip (lstrip s)

strip_both_ends : strip " rl_follow \t" ≡ "rl_follow"
unfolding strip
strip_both_ends = refl

-- The text is empty or starts with a character that is not white space.
starts_plain : String → Bool
unfolding is_space
starts_plain String.[] = true
starts_plain (String.◌∷◌ c s) = not (is_space (code c))

lstrip_plain : (s : String) → starts_plain (lstrip s) ≡ true
unfolding starts_plain lstrip
lstrip_plain String.[] = refl
lstrip_plain (String.◌∷◌ c s) = elim (Bool-cases (is_space (code c))) [
  | inl e ↦ rw e (lstrip_plain s)
  | inr e ↦ rw e (rw e refl)
]

plain_lstrip : (s : String) → starts_plain s ≡ true → lstrip s ≡ s
unfolding starts_plain lstrip
plain_lstrip String.[] h = refl
plain_lstrip (String.◌∷◌ c s) h = let e : is_space (code c) ≡ false = ground arith in rw e refl

rstrip_plain : (s : String) → starts_plain s ≡ true → starts_plain (rstrip s) ≡ true
unfolding starts_plain rstrip
rstrip_plain String.[] h = refl
rstrip_plain (String.◌∷◌ c s) h =
    let e : is_space (code c) ≡ false = ground arith in
    elim (Bool-cases (is_empty (rstrip s))) [
      | inl q ↦ rw (q, e) (rw e refl)
      | inr q ↦ rw q (rw e refl)
    ]

rstrip-rstrip : (s : String) → rstrip (rstrip s) ≡ rstrip s
unfolding rstrip
rstrip-rstrip String.[] = refl
rstrip-rstrip (String.◌∷◌ c s) = elim (Bool-cases (is_empty (rstrip s) && is_space (code c))) [
  | inl e ↦ rw e refl
  | inr e ↦ rw e (rw (rstrip-rstrip s) (rw e refl))
]

-- What is stripped has nothing left to strip.
pub strip-strip : (s : String) → strip (strip s) ≡ strip s
unfolding strip
strip-strip s =
    let p = rstrip_plain (lstrip s) (lstrip_plain s) in
    ap rstrip (plain_lstrip (rstrip (lstrip s)) p) ∙ rstrip-rstrip (lstrip s)
