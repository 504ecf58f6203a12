-- ===== src/Runner/Cycle/Verdict.antt =====
-- The verdict of `detectDependencyCycle` on a whole list of tasks.
use mrmfactorytest.Prelude.{
  ℕ, suc, ◌<◌, String, List, [], ◌∷◌, true, mem, ◌≡◌, ◌≢◌, ◌↔◌, inl, inr, refl, subst, none, map,
  keys, length, lookup, insert, arith, All, All-mem,
}
use mrmfactorytest.Config.{Task}
use mrmfactorytest.Runner.Cycle.{
  unvisited, visiting, visited, CycleError, undefined_dependency, cycle, Outcome, returns, fails,
  timeout, TaskMap, Visitation, mark, Search, unmark_tasks, index_tasks, search_all,
  detect_dependency_cycle, ◌>>=◌,
}
use mrmfactorytest.Runner.Cycle.Graph.{
  Edge, Chain, Grounded, Grounded-Edge, not-Cyclic_of_Grounded, here, next, grounded,
}
use mrmfactorytest.Runner.Cycle.Marks.{
  mark-insert, count_unvisited, count_unvisited-le, count_unvisited-le_length,
}
use mrmfactorytest.Runner.Cycle.Keys.{
  task_id, index_tasks-total, index_tasks-origin, length-keys-index_tasks,
}
use mrmfactorytest.Runner.Cycle.Search.{
  Explains, Sound, Kept, Post, Contract, Mark-cases, find_cycle_dfs-Contract,
}

abbrev pub AllGrounded : TaskMap → List Task → Type 0
AllGrounded m = All (λ t. Grounded m t.id)

-- Success means that every task is well founded, an error that it names a real defect.
abbrev pub Verdict {ℓ} : {A : Type ℓ} → TaskMap → List Task → Outcome A → Type 0
Verdict m ts (returns x) = AllGrounded m ts
Verdict m ts (fails e) = Explains m e
Verdict m ts timeout = ⊥

-- Between two roots no task is being visited.
record Settled (vis : Visitation) : Type 0 where
  none_visiting : (k : String) → mark vis k ≢ visiting

unmark_tasks-unvisited :
    (k : String) (ts : List Task) (vis : Visitation)
    → mark vis k ≡ unvisited
    → mark (unmark_tasks ts vis) k ≡ unvisited
unfolding unmark_tasks
unmark_tasks-unvisited k [] vis h = h
unmark_tasks-unvisited k (t ∷ ts) vis h =
    unmark_tasks-unvisited k ts (insert t.id unvisited vis)
      (ground (arith, mark-insert t.id k unvisited vis))

Verdict-cons :
    {m : TaskMap} (t : Task) (ts : List Task) (r : Outcome Visitation)
    → Grounded m t.id
    → Verdict m ts r
    → Verdict m (t ∷ ts) r
Verdict-cons t ts (returns vis) g h = (g, h)
Verdict-cons t ts (fails e) g h = h
Verdict-cons t ts timeout g h = h

module _ (m : TaskMap) (n : ℕ) (dfs : Search) (spec : Contract m n dfs) where
  search_all-Verdict :
      (ts : List Task) (vis : Visitation)
      → All (λ t. lookup t.id m ≢ none) ts
      → Sound m vis
      → Settled vis
      → count_unvisited (keys m) vis < n
      → Verdict m ts (search_all dfs ts vis)
  unfolding search_all
  search_all-Verdict [] vis defined s q c = tt
  search_all-Verdict (t ∷ ts) vis defined s q c = elim (Mark-cases (mark vis t.id)) [
    | inl new ↦
        rw (new, search_all)
          (follow (dfs t.id vis [])
            (spec t.id vis [] s (record { leads = λ k e. absurd (q.none_visiting k e) }) new
              (inl defined.0) c)
            (λ vis' s' k.
              search_all-Verdict ts vis' defined.1 s'
                (record { none_visiting = λ j e. q.none_visiting j (k.no_new_visiting j e) })
                (omega (
                  arith,
                  c,
                  count_unvisited-le (keys m) vis vis'
                      (record { no_new_unvisited = k.no_new_unvisited }),
                ))))
    | inr (inl open_) ↦ absurd (q.none_visiting t.id open_)
    | inr (inr done) ↦
        rw (done, search_all)
          (Verdict-cons t ts (search_all dfs ts vis) (s.visited_grounded t.id done)
            (search_all-Verdict ts vis defined.1 s q c))
  ]
    where
      follow :
          (r : Outcome (Visitation × List String))
          → Post m (Grounded m t.id) vis [] r
          → ((vis' : Visitation)
              → Sound m vis'
              → Kept vis vis'
              → Verdict m ts (search_all dfs ts vis'))
          → Verdict m (t ∷ ts) (r >>= λ w. search_all dfs ts w.0)
      follow (returns w) h k = Verdict-cons t ts (search_all dfs ts w.0) h.0 (k w.0 h.1 h.2)
      follow (fails e) h k = h
      follow timeout h k = h

Verdict-map :
    (m : TaskMap) (ts : List Task) (r : Outcome Visitation)
    → Verdict m ts r
    → Verdict {A = Unit {0}} m ts (r >>= λ _. returns tt)
Verdict-map m ts (returns x) h = h
Verdict-map m ts (fails e) h = h
Verdict-map m ts timeout h = h

all_unvisited : (ts : List Task) (k : String) → mark (unmark_tasks ts []) k ≡ unvisited
unfolding lookup
all_unvisited ts k = unmark_tasks-unvisited k ts [] refl

-- The check of any list of tasks ends: with success, and then every task is defined and so is
-- everything below it, with no cycle, or with an error that names a dependency that is not defined
-- or a task that lies on a cycle.
pub detect_dependency_cycle-Verdict :
    (ts : List Task) → Verdict (index_tasks ts []) ts (detect_dependency_cycle ts)
unfolding detect_dependency_cycle
detect_dependency_cycle-Verdict ts = Verdict-map (index_tasks ts []) ts _ (
    search_all-Verdict (index_tasks ts []) (suc (length ts)) _ (find_cycle_dfs-Contract _ _) ts
      (unmark_tasks ts []) (index_tasks-total [] ts)
      (record { visited_grounded = λ k e. absurd (not_visited k e) })
      (record { none_visiting = λ k e. not_visiting k e })
      (omega (
        arith,
        count_unvisited-le_length (keys (index_tasks ts [])) (unmark_tasks ts []),
        length-keys-index_tasks ts [],
        no_keys,
      )))
  where
    not_visited : (k : String) → mark (unmark_tasks ts []) k ≡ visited → ⊥
    not_visited k e = cc (all_unvisited ts k)

    not_visiting : (k : String) → mark (unmark_tasks ts []) k ≡ visiting → ⊥
    not_visiting k e = cc (all_unvisited ts k)

    no_keys : length (keys {V = Task} []) ≡ 0
    no_keys = unfold keys in refl

-- The first task of a chain that goes on is defined.
defined_of_Edge :
    {m : TaskMap} {a b : String} (c : String) → Chain m a b → Edge m b c → lookup a m ≡ none → ⊥
defined_of_Edge c here e h = cc (e.1)
defined_of_Edge c (next {c = b} ch f) e h = defined_of_Edge b ch f h

All-map : (P : String → Type 0) (ts : List Task) → All (λ t. P t.id) ts → All P (map task_id ts)
All-map P [] h = tt
All-map P (t ∷ ts) h = (h.0, All-map P ts h.1)

pub defined_of_Grounded : {m : TaskMap} {d : String} → Grounded m d → lookup d m ≢ none
defined_of_Grounded (grounded id t found below) h = cc found

pub Grounded-of_mem :
    (m : TaskMap) (ts : List Task) (k : String)
    → AllGrounded m ts
    → mem k (map task_id ts) ≡ true
    → Grounded m k
Grounded-of_mem m ts k all listed =
    All-mem (Grounded m) k (map task_id ts) (All-map (Grounded m) ts all) listed

-- A well-founded id is that of a task.
pub mem_of_Grounded :
    (ts : List Task) (k : String) → Grounded (index_tasks ts []) k → mem k (map task_id ts) ≡ true
unfolding lookup
mem_of_Grounded ts k g = elim (index_tasks-origin k ts [] (defined_of_Grounded g)) [
  | inl old ↦ absurd (old refl)
  | inr listed ↦ listed
]

-- A defined id is that of a task.
Grounded-defined :
    (ts : List Task) (d : String)
    → AllGrounded (index_tasks ts []) ts
    → lookup d (index_tasks ts []) ≢ none
    → Grounded (index_tasks ts []) d
unfolding lookup
Grounded-defined ts d all h = elim (index_tasks-origin d ts [] h) [
  | inl old ↦ absurd (old refl)
  | inr listed ↦ Grounded-of_mem (index_tasks ts []) ts d all listed
]

no_defect :
    (ts : List Task) (e : CycleError)
    → AllGrounded (index_tasks ts []) ts
    → Explains (index_tasks ts []) e
    → ⊥
no_defect ts (undefined_dependency root d) all (missing, (p, e)) =
    defined_of_Grounded (Grounded-Edge (Grounded-defined ts p all (λ h. cc (e.1))) e) missing
no_defect ts (cycle path d) all c =
    not-Cyclic_of_Grounded (Grounded-defined ts d all (defined_of_Edge d c.1 c.2)) c

success :
    (ts : List Task) (r : Outcome (Unit {0}))
    → AllGrounded (index_tasks ts []) ts
    → Verdict (index_tasks ts []) ts r
    → r ≡ returns tt
success ts (returns x) all h = refl
success ts (fails e) all h = absurd (no_defect ts e all h)
success ts timeout all h = absurd h

-- The check succeeds exactly when every task is well founded: defined, with only well-founded
-- dependencies.
pub detect_dependency_cycle-succeeds_iff :
    (ts : List Task)
    → (detect_dependency_cycle ts ≡ returns tt) ↔ AllGrounded (index_tasks ts []) ts
detect_dependency_cycle-succeeds_iff ts = (
  λ e. subst (Verdict (index_tasks ts []) ts) e (detect_dependency_cycle-Verdict ts),
  λ all. success ts (detect_dependency_cycle ts) all (detect_dependency_cycle-Verdict ts),
)
