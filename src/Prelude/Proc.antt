-- ===== src/Prelude/Proc.antt =====
-- Methods that mutate an object and may raise: what was written before a raise stays written.
use mathlib.Core.Bool.{Bool, true, false}
use mathlib.Core.Option.{Option, none, some}
use excavator_orin_runtime.Prelude.Fault.{Error, Outcome, ok, raised}

-- A method of an object in state S with a result in A.
abbrev pub Proc {ℓ} : Type ℓ → Type ℓ → Type ℓ
Proc S A = S → Outcome A × S

module _ {ℓ} {S A : Type ℓ} where
  abbrev pub return : A → Proc S A
  return a s = (ok a, s)

  abbrev pub raise : Error → Proc S A
  raise e s = (raised e, s)

  -- An expression over the fields.
  abbrev pub read : (S → A) → Proc S A
  read f s = (ok (f s), s)

  -- A call that reads no field and may raise.
  abbrev pub call : Outcome A → Proc S A
  call r s = (r, s)

  -- The value of an optional field, or a raise where it is None.
  abbrev pub required : Option A → Error → Proc S A
  required none e = raise e
  required (some a) e = return a

module _ {ℓ} {S : Type ℓ} where
  -- Assignments to the fields.
  abbrev pub assign : (S → S) → Proc S Unit
  assign f s = (ok tt, f s)

  -- `if not test: raise e`.
  abbrev pub ensure : Bool → Error → Proc S Unit
  ensure true e = return tt
  ensure false e = raise e

module _ {ℓ} {S A B : Type ℓ} where
  abbrev pub and_then : Outcome A → (A → Proc S B) → Proc S B
  and_then (ok a) f s = f a s
  and_then (raised e) f s = (raised e, s)

  infixl 10 ◌>>=◌ ◌>>◌
  abbrev pub ◌>>=◌ : Proc S A → (A → Proc S B) → Proc S B
  ◌>>=◌ m f s = let (r, s') = m s in and_then r f s'

  abbrev pub ◌>>◌ : Proc S A → Proc S B → Proc S B
  m >> n = m >>= λ _. n

-- A method of a part of the object: the part is read, the method runs on it, and it is put back.
abbrev pub within_part {ℓ} : {S T A : Type ℓ} → (S → T) → (T → S → S) → Proc T A → Proc S A
within_part part put m s = let (r, t) = m (part s) in (r, put t s)

module _ {ℓ} {S A : Type ℓ} where
  abbrev pub after_raise : Outcome A → (Error → S → S) → Proc S A
  after_raise (ok a) f s = (ok a, s)
  after_raise (raised e) f s = (raised e, f e s)

  -- `try: m; except Exception as e: f; raise`.
  abbrev pub cleanup : Proc S A → (Error → S → S) → Proc S A
  cleanup m f s = let (r, s') = m s in after_raise r f s'
