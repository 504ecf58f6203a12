-- ===== src/Runner/Moves.antt =====
-- _archive/taskrunner/runner.go: what the dispatcher, the workers and `ExecuteActions` share while tasks
-- run, and what each of them does in one step. A pass of the dispatcher is a read of the records, what it
-- decides of them with the new number of the batch, and each send; a task of a worker is its begin and
-- its end.
use mrmfactorytest.Prelude.{
  ℕ, zero, suc, String, Option, none, some, List, [], ◌∷◌, ◌++◌, length, Bool, true, false, ltb,
  leb, if◌then◌else◌,
}
use mrmfactorytest.Value.{Entries}
use mrmfactorytest.Config.{Task}
use mrmfactorytest.Errors.{Error, Result, ok, err}
use mrmfactorytest.Etcd.{Client}
use mrmfactorytest.Store.Decimal.{ℤ}
use mrmfactorytest.Store.Models.{TaskDetail}
use mrmfactorytest.Store.Keys.{ExecutionStore}
use mrmfactorytest.Store.Operations.{get_all_tasks, get_task, update_task, increment_batch_counter}
use mrmfactorytest.Runner.Cycle.{index_tasks}
use mrmfactorytest.Runner.Scan.{
  DispatchableTask, Dispatcher, status_map, finished_count, scan_tasks, spawn_all,
}
use mrmfactorytest.Runner.Worker.{PluginResult, start_detail, end_task}

-- Where the dispatcher stands: before its first pass, at its select, in a pass that has read the
-- records, in one that sends the tasks of a batch, or returned.
pub data Phase : Type 0 where
  starting waiting stopped : Phase
  passing : List TaskDetail → Phase
  sending : ℤ → List Task → Phase

-- Where a worker stands: at its select, in a task that is marked as in progress, at its signal, or
-- returned.
pub data WorkerPhase : Type 0 where
  idle signalling gone : WorkerPhase
  busy : Task → TaskDetail → WorkerPhase

-- `signals` is what workerDoneSignal holds. Both channels have room for as many as there are tasks.
pub record Pool (c : Client) : Type 0 where
  pub dispatcher : Dispatcher c
  pub phase : Phase
  pub workers : List WorkerPhase
  pub signals : ℕ
  pub cancelled : Bool
  -- tasksToRunChan is closed
  pub closed : Bool
  -- a send on a closed channel has ended the program
  pub panicked : Bool

abbrev pub idle_workers : ℕ → List WorkerPhase
idle_workers zero = []
idle_workers (suc n) = idle ∷ idle_workers n

abbrev pub initial_pool : (c : Client) → ℕ → List Task → c.Server → Pool c
initial_pool c workers tasks s = record {
  dispatcher = record {
    server = s;
    queue = [];
    capacity = length tasks;
    spawned = [];
    all_finished = false;
  };
  phase = starting;
  workers = idle_workers workers;
  signals = 0;
  cancelled = false;
  closed = false;
  panicked = false;
}

abbrev pub read_phase : Result (List TaskDetail) → Phase
read_phase (ok details) = passing details
read_phase (err e) = waiting

abbrev pub batch_phase : List Task → Result ℤ → Phase
batch_phase ready (ok n) = sending n ready
batch_phase ready (err e) = waiting

-- A send with `default`.
abbrev pub offer : ℕ → DispatchableTask → List DispatchableTask → List DispatchableTask
offer capacity d queue = if ltb (length queue) capacity then queue ++ d ∷ [] else queue

-- A send on a closed channel panics, also in a select with a default.
unfoldable pub send_next : {c : Client} → ℤ → Task → List Task → Pool c → Pool c
send_next n t ts p =
    let w = p.dispatcher in
    if p.closed then record p { panicked = true } else record p {
      dispatcher = record w {
        queue = offer w.capacity (record { config = t; iteration = n }) w.queue;
      };
      phase = sending n ts;
    }

abbrev marked : TaskDetail → Result (Unit {0}) → Option TaskDetail
marked started (ok _) = some started
marked started (err e) = none

abbrev pub begun_phase : Task → Option TaskDetail → WorkerPhase
begun_phase task none = idle
begun_phase task (some started) = busy task started

abbrev pub begun_updates : Option TaskDetail → List TaskDetail
begun_updates none = []
begun_updates (some started) = started ∷ []

abbrev pub set_worker :
    {c : Client} → List WorkerPhase → WorkerPhase → List WorkerPhase → Pool c → Pool c
set_worker front w back p = record p { workers = front ++ w ∷ back }

module _ (c : Client) (st : ExecutionStore) where
  -- The read at the start of `scanAndDispatch`.
  unfoldable pub begin_pass : Pool c → Pool c
  begin_pass p =
      let (answer, s) = get_all_tasks c st p.dispatcher.server in
      record p { dispatcher = record p.dispatcher { server = s }; phase = read_phase answer }

  -- The batch's number, where a task is ready.
  unfoldable pub begin_batch : List Task → Pool c → Pool c
  begin_batch [] p = record p { phase = waiting }
  begin_batch (t ∷ ts) p =
      let (answer, s) = increment_batch_counter c st p.dispatcher.server in
      record p {
        dispatcher = record p.dispatcher { server = s };
        phase = batch_phase (t ∷ ts) answer;
      }

  -- What follows the read, up to the sends.
  unfoldable pub decide_pass : List Task → List TaskDetail → Pool c → Pool c
  decide_pass tasks details p =
      let pass = scan_tasks (index_tasks tasks []) (status_map details []) details in
      let w = p.dispatcher in
      if leb (length tasks) (finished_count details)
      then record p { dispatcher = record w { all_finished = true }; phase = stopped }
      else begin_batch pass.ready_tasks (record p {
        dispatcher = record w { spawned = spawn_all pass.blocked_details w.spawned };
      })

module _ (c : Client) (st : ExecutionStore) where
  -- From a task that is taken to its mark; `none` where a call fails.
  unfoldable pub begin_task : ℕ → DispatchableTask → c.Server → Option TaskDetail × c.Server
  begin_task now d s =
      let (answer, s') = get_task c st d.config.id s in
      elim answer [
        | err e ↦ (none, s')
        | ok detail ↦
            let started = start_detail now d detail in
            let (answer', s'') = update_task c st started s' in (marked started answer', s'')
      ]

  -- A worker takes the head of the channel and marks its task.
  unfoldable pub worker_begins :
      ℕ
      → DispatchableTask
      → List DispatchableTask
      → List WorkerPhase
      → List WorkerPhase
      → Pool c
      → Pool c
  worker_begins now d rest front back p =
      let (started, s) = begin_task now d p.dispatcher.server in
      set_worker front (begun_phase d.config started) back (record p {
        dispatcher = record p.dispatcher {
          server = s;
          queue = rest;
          spawned = p.dispatcher.spawned ++ begun_updates started;
        };
      })

  -- An update that `go` started runs. Both methods that are started this way do the same.
  unfoldable pub update_runs : TaskDetail → List TaskDetail → Pool c → Pool c
  update_runs detail left p = record p {
    dispatcher = record p.dispatcher {
      server = (update_task c st detail p.dispatcher.server).1;
      spawned = left;
    };
  }

module _ (decrypt : String → Option String) (describe : Error → String)
    (run_plugin : Task → Entries → PluginResult) (c : Client) (st : ExecutionStore) where
  unfoldable pub worker_ends :
      ℕ → Task → TaskDetail → List WorkerPhase → List WorkerPhase → Pool c → Pool c
  worker_ends later task detail front back p =
      let (final, s) =
        end_task decrypt describe run_plugin c st later task detail p.dispatcher.server in
      set_worker front signalling back (record p {
        dispatcher = record p.dispatcher {
          server = s;
          spawned = p.dispatcher.spawned ++ final ∷ [];
        };
      })
