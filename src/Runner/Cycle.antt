-- ===== src/Runner/Cycle.antt =====
-- _archive/taskrunner/runner.go: `detectDependencyCycle` and `findCycleDFS`. The visitation map and
-- the recursion stack, which Go changes in place, are passed along. The recursion takes fuel.
pub mod Graph
mod Marks
pub mod Keys
mod Search
pub mod Verdict
use mrmfactorytest.Prelude.{
  ℕ, zero, suc, String, Option, none, some, List, [], ◌∷◌, ◌++◌, Map, lookup, insert, length,
}
use mrmfactorytest.Config.{Task, deps}

pub data Mark : Type 0 where
  unvisited visiting visited : Mark

pub data CycleError : Type 0 where
  -- the first task of the recursion stack, and the missing id
  undefined_dependency : String → String → CycleError
  -- the recursion stack, and the id that closes the cycle
  cycle : List String → String → CycleError

-- `timeout` is the end of the fuel, which the program does not have.
pub data Outcome {ℓ} (A : Type ℓ) : Type ℓ where
  returns : A → Outcome A
  fails : CycleError → Outcome A
  timeout : Outcome A

infixl 5 ◌>>=◌
abbrev pub ◌>>=◌ {ℓ κ} : {A : Type ℓ} {B : Type κ} → Outcome A → (A → Outcome B) → Outcome B
returns a >>= f = f a
fails e >>= f = fails e
timeout >>= f = timeout

abbrev pub TaskMap : Type 0
TaskMap = Map Task

abbrev pub Visitation : Type 0
Visitation = Map Mark

-- A missing key reads as the zero value, which is `unvisited`.
abbrev pub mark_or : Option Mark → Mark
mark_or none = unvisited
mark_or (some m) = m

abbrev pub mark : Visitation → String → Mark
mark vis k = mark_or (lookup k vis)

abbrev pub first_or : String → List String → String
first_or d [] = d
first_or d (x ∷ xs) = x

-- (*recursionStack)[:len(*recursionStack)-1]
abbrev pub pop : List String → List String
pop [] = []
pop (x ∷ []) = []
pop (x ∷ y ∷ xs) = x ∷ pop (y ∷ xs)

abbrev pub Search : Type 0
Search = String → Visitation → List String → Outcome (Visitation × List String)

-- The loop over `task.Dependencies.Tasks`.
unfoldable pub visit_deps :
    Search → List String → Visitation → List String → Outcome (Visitation × List String)
visit_deps dfs [] vis stack = returns (vis, stack)
visit_deps dfs (dep ∷ rest) vis stack = elim (mark vis dep) [
  | visiting ↦ fails (cycle stack dep)
  | unvisited ↦ dfs dep vis stack >>= λ r. visit_deps dfs rest r.0 r.1
  | visited ↦ visit_deps dfs rest vis stack
]

-- What follows `task, exists := taskMap[taskID]`.
unfoldable pub visit_task : Search → Option Task → Search
visit_task dfs none id vis stack = fails (undefined_dependency (first_or id stack) id)
visit_task dfs (some task) id vis stack =
    visit_deps dfs (deps task) vis stack >>= λ r. returns (insert id visited r.0, pop r.1)

unfoldable pub find_cycle_dfs : ℕ → TaskMap → Search
find_cycle_dfs zero m id vis stack = timeout
find_cycle_dfs (suc fuel) m id vis stack =
    visit_task (find_cycle_dfs fuel m) (lookup id m) id (insert id visiting vis) (stack ++ id ∷ [])

unfoldable pub index_tasks : List Task → TaskMap → TaskMap
index_tasks [] m = m
index_tasks (t ∷ ts) m = index_tasks ts (insert t.id t m)

unfoldable pub unmark_tasks : List Task → Visitation → Visitation
unmark_tasks [] vis = vis
unmark_tasks (t ∷ ts) vis = unmark_tasks ts (insert t.id unvisited vis)

-- The last loop: a fresh recursion stack for every root.
unfoldable pub search_all : Search → List Task → Visitation → Outcome Visitation
search_all dfs [] vis = returns vis
search_all dfs (t ∷ ts) vis = elim (mark vis t.id) [
  | unvisited ↦ dfs t.id vis [] >>= λ r. search_all dfs ts r.0
  | visiting ↦ search_all dfs ts vis
  | visited ↦ search_all dfs ts vis
]

-- The nesting of the calls is at most the number of tasks, plus one for an id that is not defined.
unfoldable pub detect_dependency_cycle : List Task → Outcome (Unit {0})
detect_dependency_cycle tasks =
    search_all (find_cycle_dfs (suc (length tasks)) (index_tasks tasks [])) tasks
      (unmark_tasks tasks [])
    >>= λ _. returns tt
