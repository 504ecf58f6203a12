-- ===== src/Prelude/Splits.antt =====
-- Texts that are split at a character, and joined again. The list's constructors carry their type's
-- name.
use Prim.Native.Nat.{ℕ}
use Prim.Native.Char.{Char, code}
use Prim.Native.String.{String, [], ◌∷◌, ◌++◌}
use mathlib.Core.Path.{◌≡◌, refl, ◌∙◌, ap}
use mathlib.Core.Logic.{inl, inr}
use mathlib.Core.Bool.{Bool, true, false, ◌||◌}
use mathlib.Core.Option.{Option, none, some}
use mathlib.Core.List.{List}
use native.Mathlib.Omega.{arith}
use text.Mathlib.TextLemmas.{nil-append, cons-append, append_assoc, append-nil}
use mrmfactorytest.Prelude.Tests.{eqb, if◌then◌else◌, Bool-cases}
use mrmfactorytest.Prelude.Lists.{All}

-- The character with this code occurs in the text.
unfoldable pub has_char : ℕ → String → Bool
has_char sep [] = false
has_char sep (c ∷ s) = eqb (code c) sep || has_char sep s

-- The text behind the first character with this code.
unfoldable pub after_char : ℕ → String → Option String
after_char sep [] = none
after_char sep (c ∷ s) = if eqb (code c) sep then some s else after_char sep s

-- strings.Split by a character, with the word that was begun.
unfoldable pub split_from : ℕ → String → String → List String
split_from sep word [] = List.◌∷◌ word List.[]
split_from sep word (c ∷ s) = elim (eqb (code c) sep) [
  | true ↦ List.◌∷◌ word (split_from sep [] s)
  | false ↦ split_from sep (word ++ (c ∷ [])) s
]

unfoldable pub split : ℕ → String → List String
split sep s = split_from sep [] s

-- strings.Join
unfoldable pub join : String → List String → String
join sep List.[] = []
join sep (List.◌∷◌ s List.[]) = s
join sep (List.◌∷◌ s (List.◌∷◌ t more)) = s ++ (sep ++ join sep (List.◌∷◌ t more))

pub has_char-append :
    (sep : ℕ) (s t : String) → has_char sep (s ++ t) ≡ (has_char sep s || has_char sep t)
unfolding has_char
has_char-append sep [] t = rw nil-append refl
has_char-append sep (c ∷ s) t = rw cons-append (ground (arith, has_char-append sep s t))

true-ne-false : true ≡ false → ⊥
true-ne-false e = cc

append_step : (word : String) (d : Char) (w : String) → (word ++ (d ∷ [])) ++ w ≡ word ++ (d ∷ w)
append_step word d w = rw (append_assoc, cons-append, nil-append) refl

split_from-append :
    (sep : ℕ) (c : Char) (word w s : String)
    → eqb (code c) sep ≡ true
    → has_char sep w ≡ false
    → split_from sep word (w ++ (c ∷ s)) ≡ List.◌∷◌ (word ++ w) (split_from sep [] s)
unfolding split_from has_char
split_from-append sep c word [] s e h = rw (nil-append, append-nil) (rw (e, split_from) refl)
split_from-append sep c word (d ∷ w) s e h = elim (Bool-cases (eqb (code d) sep)) [
  | inl stop ↦ let f : true ≡ false = rw stop at h in absurd (true-ne-false f)
  | inr other ↦
      let clean : has_char sep w ≡ false = rw other at h in
      rw cons-append (
        rw (other, split_from)
          (split_from-append sep c (word ++ (d ∷ [])) w s e clean
            ∙ ap (λ (x : String). List.◌∷◌ x (split_from sep [] s)) (append_step word d w)))
]

split_from_whole :
    (sep : ℕ) (word w : String)
    → has_char sep w ≡ false
    → split_from sep word w ≡ List.◌∷◌ (word ++ w) List.[]
unfolding split_from has_char
split_from_whole sep word [] h = rw append-nil refl
split_from_whole sep word (d ∷ w) h = elim (Bool-cases (eqb (code d) sep)) [
  | inl stop ↦ let f : true ≡ false = rw stop at h in absurd (true-ne-false f)
  | inr other ↦
      let clean : has_char sep w ≡ false = rw other at h in
      rw (other, split_from)
        (split_from_whole sep (word ++ (d ∷ [])) w clean
          ∙ ap (λ (x : String). List.◌∷◌ x List.[]) (append_step word d w))
]

-- Words without the separator come back from the text that joins them.
pub split-join :
    (sep : ℕ) (c : Char) (w : String) (words : List String)
    → eqb (code c) sep ≡ true
    → has_char sep w ≡ false
    → All (λ (x : String). has_char sep x ≡ false) words
    → split sep (join (c ∷ []) (List.◌∷◌ w words)) ≡ List.◌∷◌ w words
unfolding split join
split-join sep c w List.[] e h all = split_from_whole sep [] w h ∙ rw nil-append refl
split-join sep c w (List.◌∷◌ x words) e h all =
    let later = join (c ∷ []) (List.◌∷◌ x words) in
    rw (cons-append c [] later, nil-append later)
      (split_from-append sep c [] w later e h
        ∙ rw (nil-append w)
            (ap (λ (l : List String). List.◌∷◌ w l) (split-join sep c x words e all.0 all.1)))

-- The text behind a separator that does not occur before.
pub after_char-append :
    (sep : ℕ) (c : Char) (w s : String)
    → eqb (code c) sep ≡ true
    → has_char sep w ≡ false
    → after_char sep (w ++ (c ∷ s)) ≡ some s
unfolding after_char has_char
after_char-append sep c [] s e h = rw nil-append (rw e refl)
after_char-append sep c (d ∷ w) s e h = elim (Bool-cases (eqb (code d) sep)) [
  | inl stop ↦ let f : true ≡ false = rw stop at h in absurd (true-ne-false f)
  | inr other ↦
      let clean : has_char sep w ≡ false = rw other at h in
      rw cons-append (rw other (after_char-append sep c w s e clean))
]
