-- ===== src/Runner/Scan.antt =====
-- _archive/taskrunner/runner.go: `scanAndDispatch`, the dispatcher's pass over the stored details.
pub mod Deps
pub mod Progress
pub mod Dispatch
pub mod Ending
use mrmfactorytest.Prelude.{
  ℕ, zero, suc, ◌+◌, ◌-◌, String, Option, none, some, List, [], ◌∷◌, ◌++◌, Map, lookup, insert,
  length, Bool, true, false, ◌&&◌, leb, ltb, if◌then◌else◌,
}
use mrmfactorytest.Value.{end}
use mrmfactorytest.Config.{Task, deps}
use mrmfactorytest.Errors.{Result, ok, err}
use mrmfactorytest.Etcd.{Client}
use mrmfactorytest.Store.Decimal.{ℤ}
use mrmfactorytest.Store.Models.{
  ExecutionStatus, pending, in_progress, completed, failed, skipped, blocked, TaskDetail,
}
use mrmfactorytest.Store.Keys.{ExecutionStore}
use mrmfactorytest.Store.Operations.{get_all_tasks, increment_batch_counter}
use mrmfactorytest.Runner.Cycle.{TaskMap, index_tasks}

pub record DispatchableTask : Type 0 where
  pub config : Task
  pub iteration : ℤ

abbrev pub is_pending : ExecutionStatus → Bool
is_pending pending = true
is_pending _ = false

-- t.Status != StatusPending && t.Status != StatusInProgress
abbrev pub is_terminal : ExecutionStatus → Bool
is_terminal pending = false
is_terminal in_progress = false
is_terminal _ = true

-- found, and completed or skipped
abbrev pub is_met : Option ExecutionStatus → Bool
is_met (some completed) = true
is_met (some skipped) = true
is_met _ = false

-- A status that is not found reads as the empty text, which is neither.
abbrev pub is_broken : Option ExecutionStatus → Bool
is_broken (some failed) = true
is_broken (some blocked) = true
is_broken _ = false

abbrev pub Statuses : Type 0
Statuses = Map ExecutionStatus

unfoldable pub status_map : List TaskDetail → Statuses → Statuses
status_map [] m = m
status_map (t ∷ ts) m = status_map ts (insert t.task_id t.status m)

unfoldable pub finished_count : List TaskDetail → ℕ
finished_count [] = 0
finished_count (t ∷ ts) = let n = finished_count ts in if is_terminal t.status then suc n else n

-- The loop over the dependencies: `depsMet` and `depFailed`. A broken one ends it.
unfoldable pub check_deps : Statuses → List String → Bool → Bool × Bool
check_deps m [] met = (met, false)
check_deps m (d ∷ ds) met =
    let met' = met && is_met (lookup d m) in
    let rest = check_deps m ds met' in if is_broken (lookup d m) then (met', true) else rest

pub data Decision : Type 0 where
  ignore block wait : Decision
  ready : Task → Decision

-- The zero value that a missing key of `taskConfigMap` reads as.
abbrev pub zero_task : Task
zero_task = record {
  id = "";
  package_path = "";
  method = "";
  output_variable = "";
  context = end;
  dependencies = none;
}

abbrev pub config_or_zero : Option Task → Task
config_or_zero none = zero_task
config_or_zero (some t) = t

abbrev pub decide_checked : Task → Bool × Bool → Decision
decide_checked t r = if r.1 then block else if r.0 then ready t else wait

unfoldable pub decide : TaskMap → Statuses → TaskDetail → Decision
decide configs m detail =
    let task = config_or_zero (lookup detail.task_id configs) in
    if is_pending detail.status then decide_checked task (check_deps m (deps task) true) else ignore

-- What a pass found: the tasks to dispatch, and the details to write as blocked.
pub record Pass : Type 0 where
  pub ready_tasks : List Task
  pub blocked_details : List TaskDetail

abbrev pub blocked_detail : TaskDetail → TaskDetail
blocked_detail d = record d { status = blocked; error = "An upstream dependency failed." }

abbrev pub record_decision : Decision → TaskDetail → Pass → Pass
record_decision ignore d p = p
record_decision wait d p = p
record_decision block d p = record p { blocked_details = blocked_detail d ∷ p.blocked_details }
record_decision (ready t) d p = record p { ready_tasks = t ∷ p.ready_tasks }

-- The loop over `tasksFromStore`.
unfoldable pub scan_tasks : TaskMap → Statuses → List TaskDetail → Pass
scan_tasks configs m [] = record { ready_tasks = []; blocked_details = [] }
scan_tasks configs m (d ∷ ds) = record_decision (decide configs m d) d (scan_tasks configs m ds)

-- The state that the dispatcher shares: the cluster, the channel of tasks with its capacity, the
-- updates that `go` started and that have not run yet, and the signal that all is finished.
pub record Dispatcher (c : Client) : Type 0 where
  pub server : c.Server
  pub queue : List DispatchableTask
  pub capacity : ℕ
  pub spawned : List TaskDetail
  pub all_finished : Bool

-- A send with `default`: a task for which the channel has no room is dropped.
unfoldable pub send_all : ℕ → ℤ → List Task → List DispatchableTask → List DispatchableTask
send_all capacity n [] queue = queue
send_all capacity n (t ∷ ts) queue = send_all capacity n ts (
    if ltb (length queue) capacity
    then queue ++ record { config = t; iteration = n } ∷ []
    else queue)

-- Each blocked detail is written twice, by UpdateTask and by UpdateTaskInDetails.
unfoldable pub spawn_all : List TaskDetail → List TaskDetail → List TaskDetail
spawn_all [] spawned = spawned
spawn_all (d ∷ ds) spawned = spawn_all ds (spawned ++ d ∷ d ∷ [])

module _ (c : Client) (st : ExecutionStore) where
  abbrev pub dispatch_batch : List Task → Dispatcher c → Bool × Dispatcher c
  dispatch_batch [] w = (true, w)
  dispatch_batch (t ∷ ts) w =
      let (answer, server') = increment_batch_counter c st w.server in
      elim answer [
        | ok n ↦
            (true, record w { server = server'; queue = send_all w.capacity n (t ∷ ts) w.queue })
        | err e ↦ (true, record w { server = server' })
      ]

  -- What follows a successful `GetAllTasks`; the result says whether to go on.
  unfoldable pub dispatch_pass : List Task → List TaskDetail → Dispatcher c → Bool × Dispatcher c
  dispatch_pass all_tasks details w =
      let pass = scan_tasks (index_tasks all_tasks []) (status_map details []) details in
      let w' = record w { spawned = spawn_all pass.blocked_details w.spawned } in
      if leb (length all_tasks) (finished_count details)
      then (false, record w { all_finished = true })
      else dispatch_batch pass.ready_tasks w'

  unfoldable pub scan_and_dispatch : List Task → Dispatcher c → Bool × Dispatcher c
  scan_and_dispatch all_tasks w =
      let (answer, server') = get_all_tasks c st w.server in
      let w' = record w { server = server' } in
      elim answer [ ok details ↦ dispatch_pass all_tasks details w' | err e ↦ (true, w') ]
