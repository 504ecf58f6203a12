-- ===== src/Runner/Conditions/Access.antt =====
-- How `get` walks through nested maps.
use mrmfactorytest.Prelude.{
  String, some, List, [], ◌∷◌, ◌++◌, map, ◌≡◌, inl, inr, refl, sym, arith, eq_iff, Option-cases,
  eq_refl,
}
use mrmfactorytest.Value.{
  Value, Entries, null, text, object, end, entry, field, set_field, as_text, as_object,
}
use mrmfactorytest.Runner.Conditions.{Evaluated, value, failure, entry_of, get_from}

-- The walk along the keys ends at a value, or falls off at nil.
abbrev then_get : Evaluated Value → List Value → Evaluated Value
then_get (value v) keys = get_from v keys
then_get (failure e) keys = failure e

get_from-null : (ks : List String) → get_from null (map text ks) ≡ value null
unfolding get_from as_text as_object
get_from-null [] = refl
get_from-null (k ∷ ks) = refl

-- With texts as keys, a path that is walked in two parts is walked as a whole: `get` never fails
-- halfway and a missing entry stays nil.
pub get_from-append :
    (v : Value) (ks ls : List String)
    → get_from v (map text (ks ++ ls)) ≡ then_get (get_from v (map text ks)) (map text ls)
unfolding get_from as_text
get_from-append v [] ls = refl
get_from-append v (k ∷ ks) ls = elim (Option-cases (entry_of (as_object v) k)) [
  | inl e ↦ rw (e, get_from) (sym (get_from-null ls))
  | inr (w, e) ↦ rw (e, get_from) (get_from-append w ks ls)
]

field-set_field : (k : String) (v : Value) (m : Entries) → field k (set_field k v m) ≡ some v
unfolding field set_field
field-set_field k v end = rw eq_refl refl
field-set_field k v (entry j w m) = ground (arith, eq_iff k k, eq_iff j k, field-set_field k v m)

-- The map with the value at the end of the path of keys.
abbrev pub nested : String → List String → Value → Entries → Value
nested k [] v m = object (set_field k v m)
nested k (l ∷ ls) v m = object (set_field k (nested l ls v end) m)

-- What stands at the end of a path of keys is found there.
pub get_from-nested :
    (k : String) (ks : List String) (v : Value) (m : Entries)
    → get_from (nested k ks v m) (map text (k ∷ ks)) ≡ value v
unfolding get_from as_text as_object
get_from-nested k [] v m = rw (field-set_field k v m, get_from) refl
get_from-nested k (l ∷ ls) v m =
    rw (field-set_field k (nested l ls v end) m, get_from) (get_from-nested l ls v end)
