-- ===== src/FixedCycle/Dict.antt =====
-- Dicts with text keys, in the order of insertion, for edge_runtime/resident_fixed_cycle.py; and
-- tuples of identifiers as sets.
use excavator_orin_runtime.Prelude.{
  String, ◌≡◌, refl, ◌∙◌, Bool, true, false, ◌&&◌, not, Option, none, some, List, [], ◌∷◌, arith,
  str_eq, str_eq_iff, str_eq_refl, if◌then◌else◌, all, Bool-cases, inl, inr,
}
use excavator_orin_runtime.Prelude.Fault.{Outcome, ok, Outcome-cases}
use excavator_orin_runtime.Protocol.{◌>>=◌}
use excavator_orin_runtime.Json.{Json, Members, end, member, listed}

module _ {ℓ} {V : Type ℓ} where
  -- `d.get(k)`.
  unfoldable pub get : String → List (String × V) → Option V
  get k [] = none
  get k ((j, v) ∷ d) = let rest = get k d in if str_eq j k then some v else rest

  -- `d[k] = v`: the key keeps its place.
  unfoldable pub put : String → V → List (String × V) → List (String × V)
  put k v [] = (k, v) ∷ []
  put k v ((j, w) ∷ d) = let rest = put k v d in if str_eq j k then (j, v) ∷ d else (j, w) ∷ rest

  pub get-put_same : (k : String) (v : V) (d : List (String × V)) → get k (put k v d) ≡ some v
  unfolding get put
  get-put_same k v [] = ground (arith, str_eq_refl k)
  get-put_same k v ((j, w) ∷ d) = elim (Bool-cases (str_eq j k)) [
    | inl e ↦ rw e (rw e)
    | inr e ↦ rw e (rw e (get-put_same k v d))
  ]

  pub get-put_other :
      (k j : String) (v : V) (d : List (String × V))
      → str_eq j k ≡ false
      → get k (put j v d) ≡ get k d
  unfolding get put
  get-put_other k j v [] h = ground arith
  get-put_other k j v ((i, w) ∷ d) h =
      ground (arith, get-put_other k j v d h, str_eq_iff i j, str_eq_iff i k, str_eq_iff j k)

-- The dict that `json.loads` makes of the members of an object.
entries_from : List (String × Json) → Members → List (String × Json)
entries_from d end = d
entries_from d (member k v ms) = entries_from (put k v d) ms

unfoldable pub entries : Members → List (String × Json)
unfolding entries_from
entries ms = entries_from [] ms

-- `len(set(xs)) == len(xs)`.
unfoldable pub distinct : List String → Bool
distinct [] = true
distinct (x ∷ xs) = not (listed x xs) && distinct xs

-- `set(xs) <= set(ys)`.
unfoldable pub subset : List String → List String → Bool
subset xs ys = all (λ x. listed x ys) xs

-- `xs == ys`.
unfoldable pub texts_eq : List String → List String → Bool
texts_eq [] [] = true
texts_eq (x ∷ xs) (y ∷ ys) = str_eq x y && texts_eq xs ys
texts_eq [] (y ∷ ys) = false
texts_eq (x ∷ xs) [] = false

pub texts_eq→eq : (xs ys : List String) → texts_eq xs ys ≡ true → xs ≡ ys
unfolding texts_eq
texts_eq→eq [] [] h = refl
texts_eq→eq [] (y ∷ ys) h = ground arith
texts_eq→eq (x ∷ xs) [] h = ground arith
texts_eq→eq (x ∷ xs) (y ∷ ys) h = ground (arith, texts_eq→eq xs ys, str_eq_iff x y)

-- An element of a subset is an element.
pub subset-listed :
    (k : String) (xs ys : List String)
    → subset xs ys ≡ true
    → listed k xs ≡ true
    → listed k ys ≡ true
unfolding subset
subset-listed k [] ys h m = ground arith
subset-listed k (x ∷ xs) ys h m = ground (arith, subset-listed k xs ys, str_eq_iff x k)

module _ {ℓ} {V : Type ℓ} where
  -- `{k: f(k) for k in keys}`, from the dict built so far.
  unfoldable pub build :
      (String → Outcome V) → List (String × V) → List String → Outcome (List (String × V))
  build f d [] = ok d
  build f d (k ∷ ks) = do v ← f k; build f (put k v d) ks

  -- What the dict holds at a key: the value of f if it is one of the keys, else what it held.
  Holds :
      (String → Outcome V) → String → List (String × V) → List (String × V) → List String → Type ℓ
  Holds f k d r ks =
      (listed k ks ≡ true → (v : V) × (f k ≡ ok v) × (get k r ≡ some v))
      × (listed k ks ≡ false → get k r ≡ get k d)

  Holds-cons :
      (f : String → Outcome V) (k j : String) (d r : List (String × V)) (ks : List String) (v : V)
      → f j ≡ ok v
      → Holds f k (put j v d) r ks
      → Holds f k d r (j ∷ ks)
  unfolding Holds
  Holds-cons f k j d r ks v e h = elim (Bool-cases (str_eq j k)) [
    | inl same ↦
        let eq : j ≡ k = (str_eq_iff j k).0 same in
        rw same (elim (Bool-cases (listed k ks)) [
          | inl later ↦ (λ _. h.0 later, λ p. cc)
          | inr last ↦ (λ _. (v, (rw (← eq) e), h.1 last ∙ (rw eq (get-put_same k v d))), λ p. cc)
        ])
    | inr other ↦ rw other (h.0, λ p. h.1 p ∙ get-put_other k j v d other)
  ]

  get-build-Holds :
      (f : String → Outcome V) (k : String) (d r : List (String × V)) (ks : List String)
      → build f d ks ≡ ok r
      → Holds f k d r ks
  unfolding build Holds
  get-build-Holds f k d r [] h = (λ p. cc, λ _. ground arith)
  get-build-Holds f k d r (j ∷ ks) h = elim (Outcome-cases (f j)) [
    | inl (v, e) ↦ Holds-cons f k j d r ks v e (get-build-Holds f k (put j v d) r ks (rw e at h))
    | inr (x, e) ↦ absurd (cc (rw e at h))
  ]

  -- A dict comprehension holds the value of f at each of its keys.
  pub get-build :
      (f : String → Outcome V) (k : String) (r : List (String × V)) (ks : List String)
      → build f [] ks ≡ ok r
      → listed k ks ≡ true
      → (v : V) × (f k ≡ ok v) × (get k r ≡ some v)
  unfolding Holds
  get-build f k r ks h m = (get-build-Holds f k [] r ks h).0 m
