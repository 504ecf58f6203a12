-- ===== src/Runner/Execute.antt =====
-- _archive/taskrunner/runner.go: `ExecuteActions`. What the dispatcher and the workers do to the
-- cluster until the dispatcher's signal or the cancellation is the argument `work`.
pub mod Conclusion
use mrmfactorytest.Prelude.{
  ℕ, String, Option, none, some, List, [], ◌∷◌, Bool, true, false, if◌then◌else◌,
}
use mrmfactorytest.Config.{Task}
use mrmfactorytest.Errors.{Error, Result, ok, err, Exec, dependency, external}
use mrmfactorytest.Etcd.{Client}
use mrmfactorytest.Store.Models.{
  ExecutionStatus, completed, failed, blocked, ExecutionHeader, TaskDetail,
}
use mrmfactorytest.Store.Keys.{ExecutionStore}
use mrmfactorytest.Store.Operations.{get_all_tasks, get_header, update_header}
use mrmfactorytest.Runner.Cycle.{Outcome, returns, fails, timeout, detect_dependency_cycle}

abbrev pub is_bad : ExecutionStatus → Bool
is_bad failed = true
is_bad blocked = true
is_bad _ = false

-- The loop that ends at the first failed or blocked task.
unfoldable pub final_success : List TaskDetail → Bool
final_success [] = true
final_success (t ∷ ts) = if is_bad t.status then false else final_success ts

-- The header as it is written last; its error stays what it was after a success.
unfoldable pub final_header : Bool → ℕ → ExecutionHeader → ExecutionHeader
final_header true now h = record h { status = completed; end_time = some now }
final_header false now h = record h {
  status = failed;
  error = "One or more tasks failed or were blocked.";
  end_time = some now;
}

module _ (c : Client) (st : ExecutionStore) where
  -- An error of `GetHeader` or `UpdateHeader` is only logged.
  unfoldable pub close_header : Bool → ℕ → c.Server → c.Server
  close_header success now s =
      let (answer, s') = get_header c st s in
      elim answer [ ok h ↦ (update_header c st (final_header success now h) s').1 | err e ↦ s' ]

  unfoldable pub conclude : ℕ → Exec c.Server Bool
  conclude now s =
      let (answer, s') = get_all_tasks c st s in
      elim answer [
        | ok tasks ↦ (ok (final_success tasks), close_header (final_success tasks) now s')
        | err e ↦ (err e, s')
      ]

  -- With no task there is nothing to run and nothing is written.
  abbrev run_tasks : List Task → (c.Server → c.Server) → ℕ → Exec c.Server Bool
  run_tasks [] work now s = (ok true, s)
  run_tasks (t ∷ ts) work now s = conclude now (work s)

  -- The check never ends by its fuel.
  unfoldable pub execute_actions : List Task → (c.Server → c.Server) → ℕ → Exec c.Server Bool
  execute_actions tasks work now s = elim (detect_dependency_cycle tasks) [
    | returns _ ↦ run_tasks tasks work now s
    | fails e ↦ (err (dependency e), s)
    | timeout ↦ (err (external "out of fuel"), s)
  ]
