-- ===== src/Json.antt =====
-- Values of `json.loads`, as edge_runtime/resident_protocol.py and resident_ingress.py read them.
-- A payload is its size with the value of its text; none where the text is no strict finite JSON.
use excavator_orin_runtime.Prelude.{
  ℕ, zero, suc, ◌+◌, ◌-◌, ◌*◌, ◌/◌, ◌%◌, ◌^◌, String, Bool, true, false, ◌&&◌, not, Option, none,
  some, List, [], ◌∷◌, if◌then◌else◌, ltb, leb, ◌==◌, str_eq,
}
use excavator_orin_runtime.Prelude.Float.{ℤ, pos, negsuc, neg_ℕ, Float, finite}

mutual
  pub data Json : Type 0 where
    null : Json
    truth : Bool → Json
    int : ℤ → Json
    real : Float → Json
    text : String → Json
    array : Items → Json
    object : Members → Json

  pub data Items : Type 0 where
    nil : Items
    cons : Json → Items → Items

  -- The members in the order of the text, with repetitions.
  pub data Members : Type 0 where
    end : Members
    member : String → Json → Members → Members

pub record Payload : Type 0 where
  pub size : ℕ
  pub value : Option Json

unfoldable pub has_key : String → Members → Bool
has_key k end = false
has_key k (member j v ms) = let rest = has_key k ms in if str_eq j k then true else rest

unfoldable mutual
  unfolding has_key

  -- No object repeats a key, at any depth: `object_pairs_hook=_unique_object`.
  pub unique_keys : Json → Bool
  unique_keys null = true
  unique_keys (truth b) = true
  unique_keys (int n) = true
  unique_keys (real x) = true
  unique_keys (text s) = true
  unique_keys (array is) = unique_items is
  unique_keys (object ms) = unique_members ms

  pub unique_items : Items → Bool
  unique_items nil = true
  unique_items (cons v is) = unique_keys v && unique_items is

  pub unique_members : Members → Bool
  unique_members end = true
  unique_members (member k v ms) = unique_keys v && (not (has_key k ms) && unique_members ms)

abbrev later : Option Json → Json → Option Json
later none v = some v
later (some w) v = some w

-- A field of a dict: of repeated keys the last one counts.
unfoldable pub field : String → Members → Option Json
field k end = none
field k (member j v ms) = let rest = field k ms in if str_eq j k then later rest v else rest

abbrev pub listed : String → List String → Bool
listed k [] = false
listed k (x ∷ xs) = let rest = listed k xs in if str_eq x k then true else rest

all_listed : Members → List String → Bool
all_listed end names = true
all_listed (member k v ms) names = listed k names && all_listed ms names

all_present : List String → Members → Bool
unfolding has_key
all_present [] ms = true
all_present (n ∷ ns) ms = has_key n ms && all_present ns ms

-- `set(value) == names`.
unfoldable pub has_fields : List String → Members → Bool
unfolding all_listed all_present
has_fields names ms = all_listed ms names && all_present names ms

-- `v == s`.
abbrev pub is_text : Json → String → Bool
is_text (text t) s = str_eq t s
is_text _ s = false

-- `v == [s, ...]`.
unfoldable pub is_texts : Items → List String → Bool
is_texts nil [] = true
is_texts (cons v is) (s ∷ ss) = is_text v s && is_texts is ss
is_texts nil (s ∷ ss) = false
is_texts (cons v is) [] = false

abbrev pub is_text_list : Json → List String → Bool
is_text_list (array is) ss = is_texts is ss
is_text_list _ ss = false

abbrev pub item_list : Items → List Json
item_list nil = []
item_list (cons v is) = v ∷ item_list is

-- `int.bit_length`, up to the fuel.
bit_length : ℕ → ℕ → ℕ
bit_length zero n = 0
bit_length (suc f) n = let rest = bit_length f (n / 2) in if n == 0 then 0 else suc rest

-- n / 2 ^ k, rounded to even.
round_shift : ℕ → ℕ → ℕ
round_shift n k =
    let q = n / 2 ^ k in
    let r = n % 2 ^ k in
    if ltb (2 ^ k) (2 * r) then q + 1 else if 2 * r == 2 ^ k then q + q % 2 else q

-- The double nearest to n, where n has b binary digits.
round_double : ℕ → ℕ → ℕ
unfolding round_shift
round_double n b = if leb b 53 then n else round_shift n (b - 53) * 2 ^ (b - 53)

-- The doubles end below 2 ^ 1024; past that `float(n)` raises OverflowError. 1100 digits are enough
-- to tell.
magnitude : ℕ → Option ℕ
unfolding bit_length round_double
magnitude n =
    let b = bit_length 1100 n in
    let m = round_double n b in if ltb m (2 ^ 1024) then some (m * 2 ^ 1074) else none

abbrev positive : Option ℕ → Option Float
positive none = none
positive (some m) = some (finite (pos m))

abbrev negative : Option ℕ → Option Float
negative none = none
negative (some m) = some (finite (neg_ℕ m))

-- `float(n)`.
unfoldable pub float_of_int : ℤ → Option Float
unfolding magnitude
float_of_int (pos n) = positive (magnitude n)
float_of_int (negsuc n) = negative (magnitude (suc n))
