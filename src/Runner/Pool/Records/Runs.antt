-- ===== src/Runner/Pool/Records/Runs.antt =====
-- _archive/taskrunner/runner.go: the records in every state of a run.
use mrmfactorytest.Prelude.{
  ℕ, zero, suc, String, Option, List, Map, keys, All, All-append, true, ◌≡◌, refl,
}
use mrmfactorytest.Value.{Entries}
use mrmfactorytest.Config.{Task}
use mrmfactorytest.Errors.{Error}
use mrmfactorytest.Etcd.{Client, IsEtcd}
use mrmfactorytest.Store.Models.{TaskDetail, is_encodable, details_encodable}
use mrmfactorytest.Store.Records.{Keyed}
use mrmfactorytest.Store.Keys.{ExecutionStore}
use mrmfactorytest.Store.Details.{Holds}
use mrmfactorytest.Runner.Worker.{PluginResult}
use mrmfactorytest.Runner.Moves.{
  idle, signalling, busy, gone, Pool, initial_pool, idle_workers, worker_ends, update_runs,
}
use mrmfactorytest.Runner.Pool.{
  Step, Reaches, here, later, first_pass, on_signal, on_tick, decides, sends, batch_ends,
  dispatcher_stops, cancel, close, begins, ends, signals, gives_up, leaves, update,
}
use mrmfactorytest.Runner.Pool.Records.{Known, Recorded, Apart, update_task-Sound}
use mrmfactorytest.Runner.Pool.Records.Held.{All-at, WorkerKnown}
use mrmfactorytest.Runner.Pool.Records.Kept.{
  RecordsKept, begin_pass-RecordsKept, decide_pass-RecordsKept, send_next-RecordsKept, moved,
  worker_begins-RecordsKept, end_task-Sound,
}

idle_workers-Known : (ids : List String) (n : ℕ) → All (WorkerKnown ids) (idle_workers n)
idle_workers-Known ids zero = tt
idle_workers-Known ids (suc n) = (tt, idle_workers-Known ids n)

module _ (decrypt : String → Option String) (describe : Error → String)
    (run_plugin : Task → Entries → PluginResult) (c : Client) (law : IsEtcd c) (st : ExecutionStore)
    (tasks : List Task)
    (encodes : (t : Task) (context : Entries)
      → is_encodable (run_plugin t context).output ≡ true) where
  module _ (ids : List String) (s0 : c.Server) where
    abbrev Kept : Pool c → Type 0
    Kept = RecordsKept c law st ids s0

    Step-Kept : {p q : Pool c} → Step decrypt describe run_plugin c st tasks p q → Kept p → Kept q
    unfolding worker_ends update_runs
    Step-Kept {p} (first_pass e) h = begin_pass-RecordsKept c law st ids s0 p h
    Step-Kept {p} (on_tick e) h = begin_pass-RecordsKept c law st ids s0 p h
    Step-Kept {p} (on_signal k e f) h =
        begin_pass-RecordsKept c law st ids s0 (record p { signals = k }) h
    Step-Kept {p} (decides details e) h =
        decide_pass-RecordsKept c law st ids s0 tasks details p e h
    Step-Kept {p} (sends n t ts e) h = send_next-RecordsKept c law st ids s0 n t ts p h
    Step-Kept (batch_ends n e) (sound, spawned, crew, phase) = (sound, spawned, crew, tt)
    Step-Kept (dispatcher_stops e f) (sound, spawned, crew, phase) = (sound, spawned, crew, tt)
    Step-Kept (cancel e) h = h
    Step-Kept (close e f) h = h
    Step-Kept {p} (begins now d rest front back e f) h =
        worker_begins-RecordsKept c law st ids s0 now d rest front back p e h
    Step-Kept {p} (ends at task detail front back e) (sound, spawned, crew, phase) =
        let (_, known, _) =
          All-at (WorkerKnown ids) front back (busy task detail) p.workers e crew in
        let (final, sound') =
          end_task-Sound c law st ids s0 decrypt describe run_plugin encodes at task detail
            p.dispatcher.server known sound in
        (
          sound',
          All-append (Known ids) p.dispatcher.spawned _ spawned (final, tt),
          moved c law st ids s0 front back (busy task detail) signalling p.workers e crew tt,
          phase,
        )
    Step-Kept {p} (signals front back e f) (sound, spawned, crew, phase) = (
      sound,
      spawned,
      moved c law st ids s0 front back signalling idle p.workers e crew tt,
      phase,
    )
    Step-Kept {p} (gives_up front back e f) (sound, spawned, crew, phase) = (
      sound,
      spawned,
      moved c law st ids s0 front back signalling idle p.workers e crew tt,
      phase,
    )
    Step-Kept {p} (leaves front back e f) (sound, spawned, crew, phase) =
        (sound, spawned, moved c law st ids s0 front back idle gone p.workers e crew tt, phase)
    Step-Kept {p} (update d front back e) (sound, spawned, crew, phase) =
        let (before, known, after) =
          All-at (Known ids) front back d p.dispatcher.spawned e spawned in
        (
          update_task-Sound c law st ids s0 d p.dispatcher.server known sound,
          All-append (Known ids) front back before after,
          crew,
          phase,
        )

    Reaches-Kept :
        {p q : Pool c} → Reaches decrypt describe run_plugin c st tasks p q → Kept p → Kept q
    Reaches-Kept here h = h
    Reaches-Kept (later run fine step) h = Step-Kept step (Reaches-Kept run h)

  -- Where etcd behaves as documented, the plugins' outputs can be encoded and the cluster holds the records
  -- m at the start, each under its own id, then in every state that a run reaches, whatever the order of
  -- its steps and whichever calls fail, the cluster holds records that can be read, each under its own id,
  -- for exactly the ids of m; and every key but that of the records and that of the batch's number holds
  -- what it held.
  pub pool-Recorded :
      (n : ℕ) (s : c.Server) (m : Map TaskDetail) {q : Pool c}
      → Holds c st s m
      → Keyed m
      → details_encodable m ≡ true
      → Reaches decrypt describe run_plugin c st tasks (initial_pool c n tasks s) q
      → Recorded c st (keys m) q.dispatcher.server × Apart c st s q.dispatcher.server
  pool-Recorded n s m held keyed fits run =
      (Reaches-Kept (keys m) s run (
        ((m, held, keyed, fits, λ k. refl), λ j e f. refl),
        tt,
        idle_workers-Known (keys m) n,
        tt,
      )).0
