-- ===== src/Prelude/Maps.antt =====
-- Go's `map[string]V` as an association list. Every order of the entries is a list of its own, so
-- a statement about all lists holds for every order in which `range` may visit the map.
use Prim.Native.Nat.{suc, ◌≤◌}
use Prim.Native.String.{String}
use mathlib.Core.Path.{◌≡◌, refl}
use mathlib.Core.Logic.{◌≢◌, inl, inr}
use mathlib.Core.Bool.{true, ◌||◌}
use mathlib.Core.Option.{Option, none, some}
use mathlib.Core.List.{List, [], ◌∷◌}
use native.Mathlib.Omega.{arith}
use text.Mathlib.Text.{◌==◌}
use text.Mathlib.TextEquality.{eq_iff}
use mrmfactorytest.Prelude.Tests.{if◌then◌else◌, String-cases}
use mrmfactorytest.Prelude.Lists.{length, mem}

abbrev pub Map {ℓ} : Type ℓ → Type ℓ
Map V = List (String × V)

module _ {ℓ} {V : Type ℓ} where
  -- v, ok := m[wanted]
  unfoldable pub lookup : String → Map V → Option V
  lookup wanted [] = none
  lookup wanted ((key, value) ∷ rest) = if key == wanted then some value else lookup wanted rest

  -- delete(m, gone)
  unfoldable pub delete : String → Map V → Map V
  delete gone [] = []
  delete gone ((key, value) ∷ rest) =
      let kept = delete gone rest in if key == gone then kept else (key, value) ∷ kept

  -- m[at] = new
  unfoldable pub insert : String → V → Map V → Map V
  insert at new [] = (at, new) ∷ []
  insert at new ((key, old) ∷ rest) =
      if key == at then (at, new) ∷ rest else (key, old) ∷ insert at new rest

  -- for _, v := range m
  unfoldable pub values : Map V → List V
  values [] = []
  values ((key, value) ∷ rest) = value ∷ values rest

  pub lookup-insert :
      (at wanted : String) (new : V) (entries : Map V)
      → lookup wanted (insert at new entries)
        ≡ (if at == wanted then some new else lookup wanted entries)
  unfolding insert lookup
  lookup-insert at wanted new ((key, old) ∷ rest) =
      let later = lookup-insert at wanted new rest in
      ground (arith, eq_iff key at, eq_iff key wanted, eq_iff at wanted, later)
  lookup-insert at wanted new [] = refl

  pub lookup-delete :
      (gone wanted : String) (entries : Map V)
      → lookup wanted (delete gone entries)
        ≡ (if gone == wanted then none else lookup wanted entries)
  unfolding delete lookup
  lookup-delete gone wanted ((key, value) ∷ rest) =
      let later = lookup-delete gone wanted rest in
      ground (arith, eq_iff key gone, eq_iff key wanted, eq_iff gone wanted, later)
  lookup-delete gone wanted [] = ground arith

-- The keys of a map, in the order of its entries.
unfoldable pub keys {ℓ} : {V : Type ℓ} → Map V → List String
keys [] = []
keys ((j, w) ∷ m) = j ∷ keys m

pub mem-keys_of_lookup {ℓ} :
    {V : Type ℓ} (k : String) (m : Map V) → lookup k m ≢ none → mem k (keys m) ≡ true
unfolding keys lookup
mem-keys_of_lookup k [] h = absurd (h refl)
mem-keys_of_lookup k ((j, w) ∷ m) h = elim (String-cases j k) [
  | inl same ↦ rw same.1
  | inr differ ↦ rw differ.1 (mem-keys_of_lookup k m (λ e. h (rw differ.1 e)))
]

pub length-keys-insert {ℓ} :
    {V : Type ℓ} (k : String) (v : V) (m : Map V)
    → length (keys (insert k v m)) ≤ suc (length (keys m))
unfolding keys insert
length-keys-insert k v [] = omega arith
length-keys-insert k v ((j, w) ∷ m) = elim (String-cases j k) [
  | inl same ↦ rw same.1 (omega arith)
  | inr differ ↦ rw differ.1 (omega (arith, length-keys-insert k v m))
]

pub mem-keys-insert {ℓ} :
    {V : Type ℓ} (wanted k : String) (v : V) (m : Map V)
    → mem wanted (keys (insert k v m)) ≡ (k == wanted || mem wanted (keys m))
unfolding keys insert
mem-keys-insert wanted k v [] = refl
mem-keys-insert wanted k v ((j, w) ∷ m) = elim (String-cases j k) [
  | inl same ↦ rw (same.1, same.0) (ground arith)
  | inr differ ↦ rw differ.1 (ground (arith, mem-keys-insert wanted k v m))
]
