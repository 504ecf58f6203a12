-- ===== src/Prelude/Lists.antt =====
-- Lists measured by native numbers, and membership by a Boolean test on texts.
use Prim.Native.Nat.{ℕ, suc, ◌+◌}
use Prim.Native.String.{String}
use mathlib.Core.Path.{◌≡◌, refl, ap, sym, subst}
use mathlib.Core.Logic.{◌⊎◌, ◌≢◌, inl, inr}
use mathlib.Core.Bool.{Bool, true, false, ◌||◌}
use mathlib.Core.List.{List, [], ◌∷◌, ◌++◌, map}
use native.Mathlib.Omega.{arith}
use text.Mathlib.Text.{◌==◌}
use text.Mathlib.TextPositions.{eq_refl}
use mrmfactorytest.Prelude.Tests.{String-cases, if◌then◌else◌}

module _ {ℓ} {A : Type ℓ} where
  abbrev pub length : List A → ℕ
  length [] = 0
  length (x ∷ xs) = suc (length xs)

  pub length-append : (xs ys : List A) → length (xs ++ ys) ≡ length xs + length ys
  length-append [] ys = omega arith
  length-append (x ∷ xs) ys = omega (arith, length-append xs ys)

pub length-map {ℓ κ} :
    {A : Type ℓ} {B : Type κ} (f : A → B) (xs : List A) → length (map f xs) ≡ length xs
length-map f [] = refl
length-map f (x ∷ xs) = omega (arith, length-map f xs)

-- Every element has the property.
abbrev pub All {ℓ κ} : {A : Type ℓ} → (A → Type κ) → List A → Type κ
All P [] = Unit
All P (x ∷ xs) = P x × All P xs

pub All-append {ℓ κ} :
    {A : Type ℓ} (P : A → Type κ) (front back : List A)
    → All P front
    → All P back
    → All P (front ++ back)
All-append P [] back first second = second
All-append P (x ∷ front) back first second = (first.0, All-append P front back first.1 second)

pub All-mono {ℓ κ} :
    {A : Type ℓ} (P Q : A → Type κ) (f : (x : A) → P x → Q x) (xs : List A) → All P xs → All Q xs
All-mono P Q f [] h = tt
All-mono P Q f (x ∷ xs) h = (f x h.0, All-mono P Q f xs h.1)

-- The text is in the list.
abbrev pub mem : String → List String → Bool
mem k [] = false
mem k (x ∷ xs) = x == k || mem k xs

pub All-mem {κ} :
    (P : String → Type κ) (k : String) (xs : List String) → All P xs → mem k xs ≡ true → P k
All-mem P k [] h m = absurd (no_mem m)
  where
    no_mem : false ≡ true → ⊥
    no_mem e = cc
All-mem P k (x ∷ xs) h m = elim (String-cases x k) [
  | inl same ↦ subst P same.0 h.0
  | inr differ ↦ All-mem P k xs h.1 (rw differ.1 at m)
]

pub mem-All : (xs : List String) → All (λ k. mem k xs ≡ true) xs
mem-All [] = tt
mem-All (x ∷ xs) = (
  rw eq_refl,
  All-mono (λ k. mem k xs ≡ true) (λ k. mem k (x ∷ xs) ≡ true) (λ k h. ground arith) xs
      (mem-All xs),
)

module _ {ℓ} {A : Type ℓ} where
  abbrev pub filter_by : (A → Bool) → List A → List A
  filter_by p [] = []
  filter_by p (x ∷ xs) = let rest = filter_by p xs in if p x then x ∷ rest else rest

module _ {A : Type 0} where
  -- The element stands in the list.
  abbrev pub In : A → List A → Type 0
  In a [] = ⊥
  In a (x ∷ xs) = (a ≡ x) ⊎ In a xs

  pub filter_by-ne-nil :
      (p : A → Bool) (a : A) (xs : List A) → In a xs → p a ≡ true → filter_by p xs ≢ []
  filter_by-ne-nil p a [] h e f = h
  filter_by-ne-nil p a (x ∷ xs) (inl same) e f = ground (arith, ap p same)
  filter_by-ne-nil p a (x ∷ xs) (inr later) e f = ground (arith, filter_by-ne-nil p a xs later e)

pub All-In {κ} : {A : Type 0} (P : A → Type κ) (a : A) (xs : List A) → All P xs → In a xs → P a
All-In P a [] h place = absurd place
All-In P a (x ∷ xs) h (inl same) = subst P (sym same) h.0
All-In P a (x ∷ xs) h (inr later) = All-In P a xs h.1 later
