-- ===== src/Runner/Pool.antt =====
-- _archive/taskrunner/runner.go: the dispatcher, the workers and `ExecuteActions` around them, as steps
-- on what they share, in any order. Each update that `go` starts is a step of its own. A call to etcd may
-- succeed after the cancellation.
pub mod Bounds
pub mod Panic
pub mod Draining
pub mod Ending
pub mod Passes
pub mod Records
pub mod Whole
use mrmfactorytest.Prelude.{
  ℕ, zero, suc, ◌<◌, String, Option, none, some, List, [], ◌∷◌, ◌++◌, length, Bool, true, false,
  ltb, leb, if◌then◌else◌, ◌≡◌, ◌⊎◌,
}
use mrmfactorytest.Value.{Entries}
use mrmfactorytest.Config.{Task}
use mrmfactorytest.Errors.{Error, Result, ok, err}
use mrmfactorytest.Etcd.{Client}
use mrmfactorytest.Store.Decimal.{ℤ}
use mrmfactorytest.Store.Models.{TaskDetail}
use mrmfactorytest.Store.Keys.{ExecutionStore}
use mrmfactorytest.Store.Operations.{get_all_tasks, get_task, update_task, increment_batch_counter}
use mrmfactorytest.Runner.Cycle.{index_tasks}
use mrmfactorytest.Runner.Scan.{
  DispatchableTask, Dispatcher, Pass, status_map, finished_count, scan_tasks, spawn_all,
}
use mrmfactorytest.Runner.Worker.{PluginResult, start_detail, end_task}
use mrmfactorytest.Runner.Moves.{
  Phase, starting, waiting, stopped, passing, sending, WorkerPhase, idle, signalling, gone, busy,
  Pool, begin_pass, decide_pass, send_next, worker_begins, worker_ends, update_runs, set_worker,
}

module _ (decrypt : String → Option String) (describe : Error → String)
    (run_plugin : Task → Entries → PluginResult) (c : Client) (st : ExecutionStore)
    (tasks : List Task) where
  pub data Step (p : Pool c) : Pool c → Type 0 where
    first_pass : p.phase ≡ starting → Step p (begin_pass c st p)
    on_signal :
        (n : ℕ)
        → p.phase ≡ waiting
        → p.signals ≡ suc n
        → Step p (begin_pass c st (record p { signals = n }))
    on_tick : p.phase ≡ waiting → Step p (begin_pass c st p)
    decides :
        (details : List TaskDetail)
        → p.phase ≡ passing details
        → Step p (decide_pass c st tasks details p)
    sends :
        (n : ℤ) (t : Task) (ts : List Task)
        → p.phase ≡ sending n (t ∷ ts)
        → Step p (send_next n t ts p)
    batch_ends : (n : ℤ) → p.phase ≡ sending n [] → Step p (record p { phase = waiting })
    dispatcher_stops :
        p.phase ≡ waiting → p.cancelled ≡ true → Step p (record p { phase = stopped })
    cancel : p.cancelled ≡ false → Step p (record p { cancelled = true })
    -- after allFinishedChan or ctx.Done
    close :
        p.closed ≡ false
        → (p.dispatcher.all_finished ≡ true) ⊎ (p.cancelled ≡ true)
        → Step p (record p { closed = true })
    begins :
        (now : ℕ) (d : DispatchableTask) (rest : List DispatchableTask)
        (front back : List WorkerPhase)
        → p.workers ≡ front ++ idle ∷ back
        → p.dispatcher.queue ≡ d ∷ rest
        → Step p (worker_begins c st now d rest front back p)
    ends :
        (later : ℕ) (task : Task) (detail : TaskDetail) (front back : List WorkerPhase)
        → p.workers ≡ front ++ busy task detail ∷ back
        → Step p (worker_ends decrypt describe run_plugin c st later task detail front back p)
    signals :
        (front back : List WorkerPhase)
        → p.workers ≡ front ++ signalling ∷ back
        → p.signals < p.dispatcher.capacity
        → Step p (set_worker front idle back (record p { signals = suc p.signals }))
    gives_up :
        (front back : List WorkerPhase)
        → p.workers ≡ front ++ signalling ∷ back
        → p.cancelled ≡ true
        → Step p (set_worker front idle back p)
    leaves :
        (front back : List WorkerPhase)
        → p.workers ≡ front ++ idle ∷ back
        → ((p.closed ≡ true) × (p.dispatcher.queue ≡ [])) ⊎ (p.cancelled ≡ true)
        → Step p (set_worker front gone back p)
    update :
        (detail : TaskDetail) (front back : List TaskDetail)
        → p.dispatcher.spawned ≡ front ++ detail ∷ back
        → Step p (update_runs c st detail (front ++ back) p)

  -- What a run comes to; nothing follows a panic.
  pub data Reaches (p : Pool c) : Pool c → Type 0 where
    here : Reaches p p
    later : {q r : Pool c} → Reaches p q → q.panicked ≡ false → Step q r → Reaches p r

module _ {decrypt : String → Option String} {describe : Error → String}
    {run_plugin : Task → Entries → PluginResult} {c : Client} {st : ExecutionStore}
    {tasks : List Task} where
  pub then_run :
      {p q r : Pool c}
      → Reaches decrypt describe run_plugin c st tasks p q
      → Reaches decrypt describe run_plugin c st tasks q r
      → Reaches decrypt describe run_plugin c st tasks p r
  then_run run here = run
  then_run run (later more fine step) = later (then_run run more) fine step
