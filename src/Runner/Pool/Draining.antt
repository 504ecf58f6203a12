-- ===== src/Runner/Pool/Draining.antt =====
-- _archive/taskrunner/runner.go: the end of a run, after the dispatcher has returned and after the
-- cancellation.
use mrmfactorytest.Prelude.{
  ℕ, suc, ◌+◌, ◌*◌, ◌≤◌, ◌<◌, String, Option, none, some, List, [], ◌∷◌, ◌++◌, length,
  length-append, Bool, true, false, ◌≡◌, ap, arith,
}
use mrmfactorytest.Value.{Entries}
use mrmfactorytest.Config.{Task}
use mrmfactorytest.Errors.{Error}
use mrmfactorytest.Etcd.{Client}
use mrmfactorytest.Store.Models.{TaskDetail}
use mrmfactorytest.Store.Keys.{ExecutionStore}
use mrmfactorytest.Runner.Scan.{DispatchableTask}
use mrmfactorytest.Runner.Worker.{PluginResult}
use mrmfactorytest.Runner.Moves.{
  stopped, WorkerPhase, idle, signalling, busy, gone, Pool, begin_task, begun_phase, begun_updates,
  worker_begins, worker_ends, update_runs,
}
use mrmfactorytest.Runner.Pool.{
  Step, Reaches, here, later, first_pass, on_signal, on_tick, decides, sends, batch_ends,
  dispatcher_stops, cancel, close, begins, ends, signals, gives_up, leaves, update,
}

-- What a worker can still do.
abbrev effort : WorkerPhase → ℕ
effort gone = 0
effort idle = 1
effort signalling = 2
effort (busy t d) = 4

abbrev total_effort : List WorkerPhase → ℕ
total_effort [] = 0
total_effort (w ∷ ws) = effort w + total_effort ws

abbrev unset : Bool → ℕ
unset true = 0
unset false = 1

-- The steps that are left, once the dispatcher has returned.
abbrev pub steps_left : {c : Client} → Pool c → ℕ
steps_left p =
    5 * length p.dispatcher.queue
    + total_effort p.workers
    + length p.dispatcher.spawned
    + unset p.cancelled
    + unset p.closed

total_effort-append :
    (front back : List WorkerPhase)
    → total_effort (front ++ back) ≡ total_effort front + total_effort back
total_effort-append [] back = omega arith
total_effort-append (w ∷ front) back = omega (arith, total_effort-append front back)

-- A worker moves: the effort of the crew changes by that of the worker.
total_effort-moved :
    (front back : List WorkerPhase) (w w' : WorkerPhase) (workers : List WorkerPhase)
    → workers ≡ front ++ w ∷ back
    → total_effort (front ++ w' ∷ back) + effort w ≡ total_effort workers + effort w'
total_effort-moved front back w w' workers e = omega (
  arith,
  ap total_effort e,
  total_effort-append front (w ∷ back),
  total_effort-append front (w' ∷ back),
)

begun-effort :
    (t : Task) (o : Option TaskDetail) → effort (begun_phase t o) + length (begun_updates o) ≤ 5
begun-effort t none = omega arith
begun-effort t (some d) = omega arith

worker_begins-steps_left :
    (c : Client) (st : ExecutionStore) (now : ℕ) (d : DispatchableTask)
    (rest : List DispatchableTask) (front back : List WorkerPhase) (p : Pool c)
    → p.workers ≡ front ++ idle ∷ back
    → p.dispatcher.queue ≡ d ∷ rest
    → steps_left (worker_begins c st now d rest front back p) < steps_left p
unfolding worker_begins
worker_begins-steps_left c st now d rest front back p e f =
    let o = (begin_task c st now d p.dispatcher.server).0 in
    omega (
      arith,
      ap length f,
      begun-effort d.config o,
      length-append p.dispatcher.spawned (begun_updates o),
      total_effort-moved front back idle (begun_phase d.config o) p.workers e,
    )

module _ {decrypt : String → Option String} {describe : Error → String}
    {run_plugin : Task → Entries → PluginResult} {c : Client} {st : ExecutionStore}
    {tasks : List Task} where
  abbrev pub steps : {p q : Pool c} → Reaches decrypt describe run_plugin c st tasks p q → ℕ
  steps here = 0
  steps (later run fine step) = suc (steps run)

  -- A step after the dispatcher has returned leaves it returned, and less to do.
  Step-steps_left :
      {p q : Pool c}
      → Step decrypt describe run_plugin c st tasks p q
      → p.phase ≡ stopped
      → (q.phase ≡ stopped) × (steps_left q < steps_left p)
  unfolding worker_begins worker_ends update_runs
  Step-steps_left (first_pass e) h = cc
  Step-steps_left (on_tick e) h = cc
  Step-steps_left (on_signal k e f) h = cc
  Step-steps_left (decides details e) h = cc
  Step-steps_left (sends k t ts e) h = cc
  Step-steps_left (batch_ends k e) h = cc
  Step-steps_left (dispatcher_stops e f) h = cc
  Step-steps_left (cancel e) h = (h, omega (arith, ap unset e))
  Step-steps_left (close e f) h = (h, omega (arith, ap unset e))
  Step-steps_left {p} (begins now d rest front back e f) h =
      (h, worker_begins-steps_left c st now d rest front back p e f)
  Step-steps_left {p} (ends at task detail front back e) h = (
    h,
    omega (
      arith,
      length-append p.dispatcher.spawned (_ ∷ []),
      total_effort-moved front back (busy task detail) signalling p.workers e,
    ),
  )
  Step-steps_left {p} (signals front back e f) h =
      (h, omega (arith, total_effort-moved front back signalling idle p.workers e))
  Step-steps_left {p} (gives_up front back e f) h =
      (h, omega (arith, total_effort-moved front back signalling idle p.workers e))
  Step-steps_left {p} (leaves front back e f) h =
      (h, omega (arith, total_effort-moved front back idle gone p.workers e))
  Step-steps_left {p} (update detail front back e) h =
      (h, omega (arith, ap length e, length-append front (detail ∷ back), length-append front back))

  steps-bound :
      {p q : Pool c} (run : Reaches decrypt describe run_plugin c st tasks p q)
      → p.phase ≡ stopped
      → (q.phase ≡ stopped) × (steps run + steps_left q ≤ steps_left p)
  steps-bound here h = (h, omega arith)
  steps-bound (later run fine step) h =
      let (h', bound) = steps-bound run h in
      let (h'', less) = Step-steps_left step h' in (h'', omega (arith, bound, less))

  -- Once the dispatcher has returned, every run ends: it takes at most `steps_left` steps, which the
  -- queue, the updates that have not run and where the workers stand give.
  pub steps-steps_left :
      {p q : Pool c} (run : Reaches decrypt describe run_plugin c st tasks p q)
      → p.phase ≡ stopped
      → steps run ≤ steps_left p
  steps-steps_left run h = let (_, bound) = steps-bound run h in omega (arith, bound)
