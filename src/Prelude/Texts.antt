-- ===== src/Prelude/Texts.antt =====
-- Lemmas on texts, and `strings.Replace` with no limit, on the characters of a text.
use Prim.Native.Nat.{ℕ, zero, suc, ◌-◌}
use Prim.Native.Char.{Char, code}
use Prim.Native.String.{String, [], ◌∷◌, ◌++◌, count}
use mathlib.Core.Path.{◌≡◌, refl, sym, subst, ◌∙◌}
use mathlib.Core.Logic.{◌≢◌, inl, inr}
use mathlib.Core.Bool.{Bool, true, false, ◌&&◌, ◌||◌}
use native.Mathlib.Omega.{arith}
use text.Mathlib.TextLemmas.{nil-append, cons-append}
use text.Mathlib.Text.{◌==◌}
use text.Mathlib.TextPositions.{eq_refl}
use mrmfactorytest.Prelude.Tests.{eqb, if◌then◌else◌, Bool-cases}

unfoldable pub has_prefix : String → String → Bool
has_prefix [] s = true
has_prefix (c ∷ p) [] = false
has_prefix (c ∷ p) (d ∷ s) = eqb (code c) (code d) && has_prefix p s

-- strings.Contains
unfoldable pub contains : String → String → Bool
contains part [] = has_prefix part []
contains part (c ∷ s) = has_prefix part (c ∷ s) || contains part s

-- strings.HasSuffix
unfoldable pub has_suffix : String → String → Bool
has_suffix [] part = [] == part
has_suffix (c ∷ s) part = (c ∷ s) == part || has_suffix s part

-- strings.TrimSuffix; `part` is not empty.
unfoldable pub trim_suffix : String → String → String
trim_suffix [] part = []
trim_suffix (c ∷ s) part = let rest = trim_suffix s part in if (c ∷ s) == part then [] else c ∷ rest

-- The number counts the characters of an occurrence that are still to be left out.
replace_from : String → String → ℕ → String → String
replace_from old new n [] = []
replace_from old new (suc n) (c ∷ s) = replace_from old new n s
replace_from old new zero (c ∷ s) = elim (has_prefix old (c ∷ s)) [
  | true ↦ new ++ replace_from old new (count old - 1) s
  | false ↦ c ∷ replace_from old new zero s
]

-- `old` is not empty.
unfoldable pub replace : String → String → String → String
unfolding replace_from
replace old new s = replace_from old new 0 s

pub append-ne-empty : (c : Char) (s t : String) → (c ∷ s) ++ t ≢ ""
append-ne-empty c s t e = absurd (empty (sym (cons-append c s t) ∙ e))
  where
    empty : c ∷ (s ++ t) ≢ []
    empty f = cc

-- A text ends in itself, and in every text that is put behind another.
has_suffix_whole : (s : String) → has_suffix s s ≡ true
unfolding has_suffix
has_suffix_whole [] = refl
has_suffix_whole (c ∷ s) = rw eq_refl refl

has_suffix_later :
    (c : Char) (s part : String) → has_suffix s part ≡ true → has_suffix (c ∷ s) part ≡ true
unfolding has_suffix
has_suffix_later c s part h = elim (Bool-cases ((c ∷ s) == part)) [
  | inl e ↦ rw e refl
  | inr e ↦ rw (e, h) refl
]

pub has_suffix-append : (front part : String) → has_suffix (front ++ part) part ≡ true
has_suffix-append [] part =
    subst (λ (s : String). has_suffix s part ≡ true) (sym (nil-append part)) (has_suffix_whole part)
has_suffix-append (c ∷ front) part =
    subst (λ (s : String). has_suffix s part ≡ true) (sym (cons-append c front part))
      (has_suffix_later c (front ++ part) part (has_suffix-append front part))

-- The text without as many characters as the other has.
unfoldable pub skip : String → String → String
skip [] s = s
skip (c ∷ p) [] = []
skip (c ∷ p) (d ∷ s) = skip p s

-- strings.TrimPrefix
unfoldable pub trim_prefix : String → String → String
trim_prefix p s = if has_prefix p s then skip p s else s

has_prefix-append : (p s : String) → has_prefix p (p ++ s) ≡ true
unfolding has_prefix
has_prefix-append [] s = refl
has_prefix-append (c ∷ p) s = rw cons-append (ground (arith, has_prefix-append p s))

skip-append : (p s : String) → skip p (p ++ s) ≡ s
unfolding skip
skip-append [] s = nil-append s
skip-append (c ∷ p) s = rw cons-append (skip-append p s)

pub trim_prefix-append : (p s : String) → trim_prefix p (p ++ s) ≡ s
unfolding trim_prefix
trim_prefix-append p s = rw (has_prefix-append p s) (skip-append p s)

-- strings.Replace with 1 as the limit; `old` is not empty.
unfoldable pub replace_first : String → String → String → String
replace_first old new [] = []
replace_first old new (c ∷ s) =
    let rest = replace_first old new s in
    if has_prefix old (c ∷ s) then new ++ skip old (c ∷ s) else c ∷ rest
