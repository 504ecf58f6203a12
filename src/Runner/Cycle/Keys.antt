-- ===== src/Runner/Cycle/Keys.antt =====
-- What the task map holds: the ids of the tasks, and nothing else.
use mrmfactorytest.Prelude.{
  ◌+◌, ◌≤◌, String, List, [], ◌∷◌, none, true, ◌≡◌, ◌≢◌, mem, map, keys, length-keys-insert, lookup,
  insert, lookup-insert, eq_iff, arith, inl, inr, ◌⊎◌, String-cases, length, All,
}
use mrmfactorytest.Config.{Task}
use mrmfactorytest.Runner.Cycle.{TaskMap, index_tasks}

pub length-keys-index_tasks :
    (ts : List Task) (m : TaskMap) → length (keys (index_tasks ts m)) ≤ length ts + length (keys m)
unfolding index_tasks
length-keys-index_tasks [] m = omega arith
length-keys-index_tasks (t ∷ ts) m =
    omega (arith, length-keys-index_tasks ts (insert t.id t m), length-keys-insert t.id t m)

abbrev pub task_id : Task → String
task_id t = t.id

-- A key of the built map was one before, or is the id of a task.
pub index_tasks-origin :
    (k : String) (ts : List Task) (m : TaskMap)
    → lookup k (index_tasks ts m) ≢ none
    → (lookup k m ≢ none) ⊎ (mem k (map task_id ts) ≡ true)
unfolding index_tasks
index_tasks-origin k [] m h = inl h
index_tasks-origin k (t ∷ ts) m h = elim (index_tasks-origin k ts (insert t.id t m) h) [
  | inl old ↦ elim (String-cases t.id k) [
    | inl same ↦ inr (rw same.1)
    | inr differ ↦ inl (λ e. old (rw (lookup-insert, differ.1) e))
  ]
  | inr listed ↦ inr (ground arith)
]

-- What is in the map stays a key of it.
index_tasks-keeps :
    (k : String) (ts : List Task) (m : TaskMap)
    → lookup k m ≢ none
    → lookup k (index_tasks ts m) ≢ none
unfolding index_tasks
index_tasks-keeps k [] m h = h
index_tasks-keeps k (t ∷ ts) m h =
    index_tasks-keeps k ts (insert t.id t m) (λ e. ground (arith, lookup-insert t.id k t m))

-- Every task's id is a key.
pub index_tasks-total :
    (m : TaskMap) (ts : List Task) → All (λ t. lookup t.id (index_tasks ts m) ≢ none) ts
unfolding index_tasks
index_tasks-total m [] = tt
index_tasks-total m (t ∷ ts) = (
  index_tasks-keeps t.id ts (insert t.id t m)
      (λ e. ground (arith, lookup-insert t.id t.id t m, eq_iff t.id t.id)),
  index_tasks-total (insert t.id t m) ts,
)
