-- ===== src/FixedCycle/Ensures.antt =====
-- A reading that returns a value has read each of its parts.
use excavator_orin_runtime.Prelude.{◌≡◌, refl, Bool, true, false}
use excavator_orin_runtime.Prelude.Fault.{Error, Outcome, ok, raised}
use excavator_orin_runtime.Protocol.{◌>>=◌, ◌>>◌, check}

-- The value of the first part of a reading, with how the rest went on from it.
abbrev pub Read {ℓ κ} : {V : Type ℓ} {W : Type κ} → Outcome V → (V → Outcome W) → W → Type (ℓ ⊔ κ)
Read {V} first rest w = (v : V) × (rest v ≡ ok w) × (first ≡ ok v)

pub split_reading {ℓ κ} :
    {V : Type ℓ} {W : Type κ} {w : W} (first : Outcome V) (rest : V → Outcome W)
    → (first >>= rest) ≡ ok w
    → Read first rest w
split_reading (raised x) rest q = absurd (cc)
split_reading (ok v) rest q = (v, q, refl)

-- A test of a reading that returns has passed.
pub test-passed {κ} :
    {W : Type κ} {w : W} (t : Bool) (x : Error) (rest : Outcome W)
    → (check t x >> rest) ≡ ok w
    → (t ≡ true) × (rest ≡ ok w)
test-passed false x rest q = absurd (cc)
test-passed true x rest q = (refl, q)
