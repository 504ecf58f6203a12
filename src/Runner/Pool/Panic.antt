-- ===== src/Runner/Pool/Panic.antt =====
-- _archive/taskrunner/runner.go: `ExecuteActions` closes tasksToRunChan after ctx.Done, also while the
-- dispatcher sends a batch on it.
use mrmfactorytest.Prelude.{
  ℕ, String, Option, List, [], ◌∷◌, length, true, false, leb, ◌≡◌, refl, inr,
}
use mrmfactorytest.Value.{Entries}
use mrmfactorytest.Config.{Task}
use mrmfactorytest.Errors.{Error, ok}
use mrmfactorytest.Etcd.{Client}
use mrmfactorytest.Store.Decimal.{ℤ}
use mrmfactorytest.Store.Models.{TaskDetail}
use mrmfactorytest.Store.Keys.{ExecutionStore}
use mrmfactorytest.Store.Operations.{increment_batch_counter, get_all_tasks}
use mrmfactorytest.Runner.Scan.{finished_count, status_map, scan_tasks}
use mrmfactorytest.Runner.Cycle.{index_tasks}
use mrmfactorytest.Runner.Worker.{PluginResult}
use mrmfactorytest.Runner.Moves.{
  sending, Pool, initial_pool, begin_pass, begin_batch, decide_pass, send_next,
}
use mrmfactorytest.Runner.Pool.{
  Reaches, here, later, first_pass, decides, cancel, close, sends, then_run,
}

module _ (decrypt : String → Option String) (describe : Error → String)
    (run_plugin : Task → Entries → PluginResult) (c : Client) (st : ExecutionStore)
    (tasks : List Task) where
  abbrev Run : Pool c → Pool c → Type 0
  Run = Reaches decrypt describe run_plugin c st tasks

  sending-Panics :
      (n : ℤ) (t : Task) (ts : List Task) (p : Pool c)
      → p.phase ≡ sending n (t ∷ ts)
      → p.cancelled ≡ false
      → p.closed ≡ false
      → p.panicked ≡ false
      → (q : Pool c) × Run p q × (q.panicked ≡ true)
  unfolding send_next
  sending-Panics n t ts p e going not_closed fine =
      let run : Run p (record p { cancelled = true; closed = true }) =
        later (later here fine (cancel going)) fine (close not_closed (inr refl)) in
      (_, later run fine (sends n t ts e), refl)

  started-Sending :
      (workers : ℕ) (s : c.Server) (details : List TaskDetail) (n : ℤ) (t : Task) (ts : List Task)
      → (get_all_tasks c st s).0 ≡ ok details
      → leb (length tasks) (finished_count details) ≡ false
      → (scan_tasks (index_tasks tasks []) (status_map details []) details).ready_tasks ≡ t ∷ ts
      → (increment_batch_counter c st (get_all_tasks c st s).1).0 ≡ ok n
      → (q : Pool c) × Run (initial_pool c workers tasks s) q
        × (q.phase ≡ sending n (t ∷ ts))
        × (q.cancelled ≡ false)
        × (q.closed ≡ false)
        × (q.panicked ≡ false)
  unfolding begin_pass decide_pass begin_batch
  started-Sending workers s details n t ts read more ready number =
      let start = initial_pool c workers tasks s in
      let run : Run start (begin_pass c st start) = later here refl (first_pass refl) in
      let decided : Run start (decide_pass c st tasks details _) =
        later (rw read at run) refl (decides details refl) in
      let batch = rw ready at (rw more at decided) in
      (_, rw number at batch, refl, refl, refl, refl)

  -- Where the first pass of a run reads records that are not all terminal, finds a task ready and gets the
  -- batch's number, there is an order of steps in which the program panics: after the number the context is
  -- cancelled, ExecuteActions closes tasksToRunChan, and the dispatcher sends on it.
  pub initial_pool-Panics :
      (workers : ℕ) (s : c.Server) (details : List TaskDetail) (n : ℤ) (t : Task) (ts : List Task)
      → (get_all_tasks c st s).0 ≡ ok details
      → leb (length tasks) (finished_count details) ≡ false
      → (scan_tasks (index_tasks tasks []) (status_map details []) details).ready_tasks ≡ t ∷ ts
      → (increment_batch_counter c st (get_all_tasks c st s).1).0 ≡ ok n
      → (q : Pool c) × Reaches decrypt describe run_plugin c st tasks
          (initial_pool c workers tasks s)
          q
        × (q.panicked ≡ true)
  initial_pool-Panics workers s details n t ts read more ready number =
      let (p, run, e, going, not_closed, fine) =
        started-Sending workers s details n t ts read more ready number in
      let (q, run', panics) = sending-Panics n t ts p e going not_closed fine in
      (q, then_run run run', panics)
