-- ===== src/Runner/Cycle/Marks.antt =====
-- How the marks change under an insertion, and how many ids are unvisited.
use mrmfactorytest.Prelude.{
  ℕ, suc, ◌≤◌, ◌<◌, String, List, [], ◌∷◌, true, ◌≡◌, ◌≢◌, mem, insert, lookup-insert, arith,
  eq_iff, eq_refl, ◌==◌, if◌then◌else◌, inl, inr, String-cases, length,
}
use mrmfactorytest.Runner.Cycle.{Mark, unvisited, visiting, visited, Visitation, mark}

pub mark-insert :
    (k j : String) (v : Mark) (vis : Visitation)
    → mark (insert k v vis) j ≡ (if k == j then v else mark vis j)
mark-insert k j v vis = ground (arith, lookup-insert k j v vis)

pub mark-insert_self : (k : String) (v : Mark) (vis : Visitation) → mark (insert k v vis) k ≡ v
mark-insert_self k v vis = simp (mark-insert, eq_refl)

abbrev unvisited_weight : Mark → ℕ → ℕ
unvisited_weight unvisited n = suc n
unvisited_weight visiting n = n
unvisited_weight visited n = n

-- How many of the ids are unvisited.
pub count_unvisited : List String → Visitation → ℕ
count_unvisited [] vis = 0
count_unvisited (k ∷ ks) vis = unvisited_weight (mark vis k) (count_unvisited ks vis)

-- No id becomes unvisited between the two maps.
pub record Advances (vis vis' : Visitation) : Type 0 where
  pub no_new_unvisited : (k : String) → mark vis' k ≡ unvisited → mark vis k ≡ unvisited

pub count_unvisited-le_length :
    (ks : List String) (vis : Visitation) → count_unvisited ks vis ≤ length ks
unfolding count_unvisited
count_unvisited-le_length [] vis = omega arith
count_unvisited-le_length (k ∷ ks) vis = ground (arith, count_unvisited-le_length ks vis)

pub count_unvisited-le :
    (ks : List String) (vis vis' : Visitation)
    → Advances vis vis'
    → count_unvisited ks vis' ≤ count_unvisited ks vis
unfolding count_unvisited
count_unvisited-le [] vis vis' a = omega arith
count_unvisited-le (k ∷ ks) vis vis' a =
    ground (arith, count_unvisited-le ks vis vis' a, a.no_new_unvisited k)

pub Advances-insert :
    (k : String) (vis : Visitation) (v : Mark) → v ≢ unvisited → Advances vis (insert k v vis)
Advances-insert k vis v h = record {
  no_new_unvisited = λ j e. ground (arith, mark-insert k j v vis);
}

-- Marking an unvisited id of the list lowers the count.
pub count_unvisited-lt :
    (ks : List String) (k : String) (vis : Visitation)
    → mem k ks ≡ true
    → mark vis k ≡ unvisited
    → count_unvisited ks (insert k visiting vis) < count_unvisited ks vis
unfolding count_unvisited
count_unvisited-lt [] k vis m u = cc
count_unvisited-lt (j ∷ ks) k vis m u = elim (String-cases j k) [
  | inl same ↦ ground (
    arith,
    mark-insert k j visiting vis,
    count_unvisited-le ks vis (insert k visiting vis) (Advances-insert k vis visiting (λ e. cc)),
  )
  | inr differ ↦
      ground (arith, mark-insert k j visiting vis, count_unvisited-lt ks k vis, eq_iff k j)
]
