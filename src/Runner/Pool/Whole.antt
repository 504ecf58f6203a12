-- ===== src/Runner/Pool/Whole.antt =====
-- _archive/taskrunner/runner.go: `ExecuteActions` from its check to its end, with a run of the dispatcher
-- and the workers between them.
use mrmfactorytest.Prelude.{ℕ, String, List, ◌∷◌, Map, keys, mem, ◌≡◌}
use mrmfactorytest.Config.{Task}
use mrmfactorytest.Etcd.{Client}
use mrmfactorytest.Store.Models.{TaskDetail}
use mrmfactorytest.Store.Keys.{ExecutionStore}
use mrmfactorytest.Store.Details.{Holds}
use mrmfactorytest.Runner.Execute.{execute_actions}
use mrmfactorytest.Runner.Execute.Conclusion.{Concluded}
use mrmfactorytest.Runner.Moves.{Pool}

-- The records that a run leaves, and how ExecuteActions concludes on them.
abbrev pub ConcludedOn :
    {c : Client}
    → ExecutionStore
    → Task
    → List Task
    → ℕ
    → c.Server
    → Map TaskDetail
    → Pool c
    → Type 0
ConcludedOn {c} st t ts now s m q =
    (m' : Map TaskDetail) × Holds c st q.dispatcher.server m'
    × ((k : String) → mem k (keys m') ≡ mem k (keys m))
    × Concluded c st m' now q.dispatcher.server
        (execute_actions c st (t ∷ ts) (λ s. q.dispatcher.server) now s)
