-- ===== src/Runner/Pool/Passes.antt =====
-- _archive/taskrunner/runner.go: `scanAndDispatch` as a run of the steps of Runner/Pool.antt.
use mrmfactorytest.Prelude.{String, Option, List, Bool, true, false}
use mrmfactorytest.Value.{Entries}
use mrmfactorytest.Config.{Task}
use mrmfactorytest.Errors.{Error}
use mrmfactorytest.Etcd.{Client}
use mrmfactorytest.Store.Keys.{ExecutionStore}
use mrmfactorytest.Runner.Scan.{Dispatcher}
use mrmfactorytest.Runner.Worker.{PluginResult}
use mrmfactorytest.Runner.Moves.{Phase, waiting, stopped, Pool}
use mrmfactorytest.Runner.Pool.{Reaches}

abbrev pub next_phase : Bool → Phase
next_phase true = waiting
next_phase false = stopped

-- The pool after a whole pass of the dispatcher.
abbrev pub after_pass : {c : Client} → Bool × Dispatcher c → Pool c → Pool c
after_pass (go_on, w) p = record p { dispatcher = w; phase = next_phase go_on }

module _ (decrypt : String → Option String) (describe : Error → String)
    (run_plugin : Task → Entries → PluginResult) (c : Client) (st : ExecutionStore)
    (tasks : List Task) where
  abbrev Run : Pool c → Pool c → Type 0
  Run = Reaches decrypt describe run_plugin c st tasks
