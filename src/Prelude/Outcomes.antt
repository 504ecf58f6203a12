-- ===== src/Prelude/Outcomes.antt =====
-- Calls that change a state and answer a value or an error of any type; what was changed before an
-- error stays changed.
use mathlib.Core.Path.{◌≡◌, refl}
use mathlib.Core.Logic.{◌⊎◌, inl, inr}
use Prim.Native.String.{String}
use mathlib.Core.Option.{Option, none, some}

pub data Outcome {ℓ} (E A : Type ℓ) : Type ℓ where
  value : A → Outcome E A
  failure : E → Outcome E A

pub Outcome-cases {ℓ} :
    {E A : Type ℓ} (r : Outcome E A) → ((a : A) × (r ≡ value a)) ⊎ ((e : E) × (r ≡ failure e))
Outcome-cases (value a) = inl (a, refl)
Outcome-cases (failure e) = inr (e, refl)

abbrev pub Action {ℓ} : Type ℓ → Type ℓ → Type ℓ → Type ℓ
Action E S A = S → Outcome E A × S

module _ {ℓ} {E S A : Type ℓ} where
  abbrev pub pure : A → Action E S A
  pure a s = (value a, s)

  abbrev pub raise : E → Action E S A
  raise e s = (failure e, s)

  abbrev pub from_outcome : Outcome E A → Action E S A
  from_outcome r s = (r, s)

module _ {ℓ} {E A B : Type ℓ} where
  -- without a state
  abbrev pub chain : Outcome E A → (A → Outcome E B) → Outcome E B
  chain (value a) f = f a
  chain (failure e) f = failure e

module _ {ℓ} {E S A B : Type ℓ} where
  abbrev pub continue : Outcome E A → (A → Action E S B) → Action E S B
  continue (value a) f s = f a s
  continue (failure e) f s = (failure e, s)

  infixl 5 ◌>>=◌ ◌>>◌
  abbrev pub ◌>>=◌ : Action E S A → (A → Action E S B) → Action E S B
  ◌>>=◌ m f s = continue (m s).0 f (m s).1

  abbrev pub ◌>>◌ : Action E S A → Action E S B → Action E S B
  m >> n = m >>= λ _. n

module _ {ℓ} {D E A : Type ℓ} where
  abbrev pub rename : (D → E) → Outcome D A → Outcome E A
  rename f (value a) = value a
  rename f (failure e) = failure (f e)

  -- fmt.Errorf around the error of a call
  abbrev pub wrap : {S : Type ℓ} → (D → E) → Action D S A → Action E S A
  wrap f m s = let (r, s') = m s in (rename f r, s')

-- A call that returns an error or nil.
abbrev pub checked : {E S : Type 0} → (String → E) → Option String × S → Outcome E (Unit {0}) × S
checked f (none, s) = (value tt, s)
checked f (some e, s) = (failure (f e), s)
