-- ===== src/Runner/Pool/Records/Kept.antt =====
-- _archive/taskrunner/runner.go: every step of the pool keeps the records.
use mrmfactorytest.Prelude.{
  ℕ, String, Option, none, some, List, [], ◌∷◌, ◌++◌, length, mem, ap, All, All-append, true, leb,
  ◌≡◌, inl, inr, refl, subst, ◌∙◌, Bool-cases,
}
use mrmfactorytest.Value.{Entries, end}
use mrmfactorytest.Config.{Task}
use mrmfactorytest.Errors.{Error, Result, ok, err, Result-cases}
use mrmfactorytest.Etcd.{Client, IsEtcd}
use mrmfactorytest.Store.Decimal.{ℤ}
use mrmfactorytest.Store.Models.{TaskDetail, is_encodable}
use mrmfactorytest.Store.Keys.{ExecutionStore}
use mrmfactorytest.Store.Operations.{get_task, update_task, increment_batch_counter}
use mrmfactorytest.Runner.Cycle.{index_tasks}
use mrmfactorytest.Runner.Scan.{DispatchableTask, status_map, finished_count}
use mrmfactorytest.Runner.Secrets.{prepare_context}
use mrmfactorytest.Runner.Secrets.Messages.{prepare_context-Unchanged}
use mrmfactorytest.Runner.Worker.{PluginResult, start_detail, end_task, finalize, run_context}
use mrmfactorytest.Runner.Worker.Finish.{finalize-task_id, finalize-encodable}
use mrmfactorytest.Runner.Moves.{
  Phase, passing, WorkerPhase, idle, Pool, begin_pass, begin_batch, decide_pass, send_next,
  begin_task, begun_phase, begun_updates, worker_begins, read_phase, batch_phase,
}
use mrmfactorytest.Runner.Pool.Records.{
  Known, Sound, Sound-Unchanged, get_task-Sound, get_all_tasks-Sound, update_task-Sound,
  increment_batch_counter-Sound, get_task-Known, get_all_tasks-Known,
}
use mrmfactorytest.Runner.Pool.Records.Held.{
  WorkerKnown, PhaseKnown, All-at, scan_tasks-Known, spawn_all-Known,
}

-- What a worker has marked, if anything.
abbrev MarkKnown : List String → Option TaskDetail → Type 0
MarkKnown ids none = Unit
MarkKnown ids (some d) = Known ids d

begun_phase-Known :
    (ids : List String) (t : Task) (o : Option TaskDetail)
    → MarkKnown ids o
    → WorkerKnown ids (begun_phase t o) × All (Known ids) (begun_updates o)
begun_phase-Known ids t none h = (tt, tt)
begun_phase-Known ids t (some d) h = (h, (h, tt))

module _ (c : Client) (law : IsEtcd c) (st : ExecutionStore) (ids : List String)
    (s0 : c.Server) where
  begin_task-Sound :
      (now : ℕ) (d : DispatchableTask) (s : c.Server)
      → Sound c st ids s0 s
      → Sound c st ids s0 (begin_task c st now d s).1 × MarkKnown ids (begin_task c st now d s).0
  unfolding begin_task start_detail
  begin_task-Sound now d s sound =
      let read = get_task-Sound c law st ids s0 d.config.id s sound in
      elim (Result-cases (get_task c st d.config.id s).0) [
        | inr (x, e) ↦ rw (e, begin_task) (read, tt)
        | inl (detail, e) ↦
            let known = get_task-Known c law st ids d.config.id detail s sound.0 e in
            let started = start_detail now d detail in
            let s' = (get_task c st d.config.id s).1 in
            let written = update_task-Sound c law st ids s0 started s' known read in
            elim (Result-cases (update_task c st started s').0) [
              | inr (x, f) ↦ rw (e, begin_task, f) (written, tt)
              | inl (u, f) ↦ rw (e, begin_task, f) (written, known)
            ]
      ]

  module _ (decrypt : String → Option String) (describe : Error → String)
      (run_plugin : Task → Entries → PluginResult)
      (encodes : (t : Task) (context : Entries)
        → is_encodable (run_plugin t context).output ≡ true) where
    pub end_task-Sound :
        (at : ℕ) (task : Task) (detail : TaskDetail) (s : c.Server)
        → Known ids detail
        → Sound c st ids s0 s
        → let r = end_task decrypt describe run_plugin c st at task detail s in
          Known ids r.0 × Sound c st ids s0 r.1
    end_task-Sound at task detail s known sound =
        let (r, s') = prepare_context decrypt describe c st task.context end s in
        let named = finalize-task_id run_plugin task at detail r in
        let final = finalize at (run_context run_plugin task r detail) in
        let final_known : Known ids final = (
          ap (λ (i : String). mem i ids) named ∙ known.0,
          finalize-encodable run_plugin task at detail r encodes known.1,
        ) in
        let read =
          Sound-Unchanged c law st ids s0 s s'
            (prepare_context-Unchanged decrypt describe c st law task.context end s) sound in
        (final_known, update_task-Sound c law st ids s0 final s' final_known read)

  -- The cluster is sound, and all that is held of it are details of the tasks.
  abbrev pub RecordsKept : Pool c → Type 0
  RecordsKept p =
      Sound c st ids s0 p.dispatcher.server
      × All (Known ids) p.dispatcher.spawned
      × All (WorkerKnown ids) p.workers
      × PhaseKnown ids p.phase

  read_phase-Known :
      (answer : Result (List TaskDetail))
      → ((ds : List TaskDetail) → answer ≡ ok ds → All (Known ids) ds)
      → PhaseKnown ids (read_phase answer)
  read_phase-Known (ok ds) h = h ds refl
  read_phase-Known (err e) h = tt

  batch_phase-Known : (ts : List Task) (answer : Result ℤ) → PhaseKnown ids (batch_phase ts answer)
  batch_phase-Known ts (ok n) = tt
  batch_phase-Known ts (err e) = tt

  pub begin_pass-RecordsKept : (p : Pool c) → RecordsKept p → RecordsKept (begin_pass c st p)
  unfolding begin_pass
  begin_pass-RecordsKept p (sound, spawned, crew, phase) = (
    get_all_tasks-Sound c law st ids s0 p.dispatcher.server sound,
    spawned,
    crew,
    read_phase-Known _ (λ ds e. get_all_tasks-Known c law st ids ds p.dispatcher.server sound.0 e),
  )

  begin_batch-RecordsKept :
      (ts : List Task) (p : Pool c) → RecordsKept p → RecordsKept (begin_batch c st ts p)
  unfolding begin_batch
  begin_batch-RecordsKept [] p (sound, spawned, crew, phase) = (sound, spawned, crew, tt)
  begin_batch-RecordsKept (t ∷ ts) p (sound, spawned, crew, phase) = (
    increment_batch_counter-Sound c law st ids s0 p.dispatcher.server sound,
    spawned,
    crew,
    batch_phase-Known (t ∷ ts) (increment_batch_counter c st p.dispatcher.server).0,
  )

  pub decide_pass-RecordsKept :
      (tasks : List Task) (details : List TaskDetail) (p : Pool c)
      → p.phase ≡ passing details
      → RecordsKept p
      → RecordsKept (decide_pass c st tasks details p)
  unfolding decide_pass
  decide_pass-RecordsKept tasks details p e (sound, spawned, crew, phase) =
      let known : All (Known ids) details = subst (λ (x : Phase). PhaseKnown ids x) e phase in
      let blocked =
        scan_tasks-Known ids (index_tasks tasks []) (status_map details []) details known in
      elim (Bool-cases (leb (length tasks) (finished_count details))) [
        | inl finished ↦ rw finished (sound, spawned, crew, tt)
        | inr more ↦ rw more (
            begin_batch-RecordsKept _ _
              (sound, spawn_all-Known ids _ p.dispatcher.spawned blocked spawned, crew, phase))
      ]

  pub send_next-RecordsKept :
      (n : ℤ) (t : Task) (ts : List Task) (p : Pool c)
      → RecordsKept p
      → RecordsKept (send_next n t ts p)
  unfolding send_next
  send_next-RecordsKept n t ts p (sound, spawned, crew, phase) = elim (Bool-cases p.closed) [
    | inl e ↦ rw e (sound, spawned, crew, phase)
    | inr e ↦ rw e (sound, spawned, crew, tt)
  ]

  pub moved :
      (front back : List WorkerPhase) (w w' : WorkerPhase) (workers : List WorkerPhase)
      → workers ≡ front ++ w ∷ back
      → All (WorkerKnown ids) workers
      → WorkerKnown ids w'
      → All (WorkerKnown ids) (front ++ w' ∷ back)
  moved front back w w' workers e h new =
      let (before, old, after) = All-at (WorkerKnown ids) front back w workers e h in
      All-append (WorkerKnown ids) front (w' ∷ back) before (new, after)

  pub worker_begins-RecordsKept :
      (now : ℕ) (d : DispatchableTask) (rest : List DispatchableTask)
      (front back : List WorkerPhase) (p : Pool c)
      → p.workers ≡ front ++ idle ∷ back
      → RecordsKept p
      → RecordsKept (worker_begins c st now d rest front back p)
  unfolding worker_begins
  worker_begins-RecordsKept now d rest front back p e (sound, spawned, crew, phase) =
      let o = (begin_task c st now d p.dispatcher.server).0 in
      let (sound', marked) = begin_task-Sound now d p.dispatcher.server sound in
      let (worker, updates) = begun_phase-Known ids d.config o marked in
      (
        sound',
        All-append (Known ids) p.dispatcher.spawned _ spawned updates,
        moved front back idle (begun_phase d.config o) p.workers e crew worker,
        phase,
      )
