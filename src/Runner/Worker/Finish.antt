-- ===== src/Runner/Worker/Finish.antt =====
-- How a worker's run of one task ends: the status it records, and what it leaves in the cluster.
use mrmfactorytest.Prelude.{
  ℕ, String, Option, none, some, Map, insert, true, false, ◌≡◌, ◌⊎◌, inl, inr, refl, Bool-cases,
}
use mrmfactorytest.Value.{Entries, end, null}
use mrmfactorytest.Config.{Task}
use mrmfactorytest.Errors.{Error}
use mrmfactorytest.Etcd.{Client, IsEtcd}
use mrmfactorytest.Store.Models.{completed, failed, TaskDetail, is_encodable}
use mrmfactorytest.Store.Keys.{ExecutionStore}
use mrmfactorytest.Store.Details.{Holds}
use mrmfactorytest.Runner.Scan.{DispatchableTask}
use mrmfactorytest.Runner.Secrets.{Resolved, resolved, refused, prepare_context}
use mrmfactorytest.Runner.Worker.{
  PluginResult, Worked, start_detail, run_context, finalize, is_success,
}

-- A plugin without an error completes the task with its output, one with an error fails it.
abbrev PluginVerdict : Option String → PluginResult → TaskDetail → Type 0
PluginVerdict none r final = (final.status ≡ completed) × (final.result ≡ r.output)
PluginVerdict (some e) r final = (final.status ≡ failed) × (final.error ≡ e)

-- The plugin's result decides, and for a refused context its refusal.
abbrev pub Finished :
    (Task → Entries → PluginResult) → Task → Resolved Entries → TaskDetail → Type 0
Finished run_plugin task (resolved context) final =
    PluginVerdict (run_plugin task context).error (run_plugin task context) final
Finished run_plugin task (refused why) final = (final.status ≡ failed) × (final.error ≡ why)

module _ (later : ℕ) (d : TaskDetail) (r : PluginResult) where
  final-task_id : (finalize later (d, r)).task_id ≡ d.task_id
  unfolding finalize
  final-task_id = elim (Bool-cases (is_success d r.error)) [
    | inl e ↦ rw (e, finalize) refl
    | inr e ↦ rw (e, finalize) refl
  ]

  final-encodable :
      is_encodable d.result ≡ true
      → is_encodable r.output ≡ true
      → is_encodable (finalize later (d, r)).result ≡ true
  unfolding finalize
  final-encodable old new = elim (Bool-cases (is_success d r.error)) [
    | inl e ↦ rw (e, finalize) new
    | inr e ↦ rw (e, finalize) old
  ]

module _ (run_plugin : Task → Entries → PluginResult) (task : Task) (later : ℕ)
    (detail : TaskDetail) where
  pub finalize-task_id :
      (r : Resolved Entries)
      → (finalize later (run_context run_plugin task r detail)).task_id ≡ detail.task_id
  unfolding run_context
  finalize-task_id (resolved context) = final-task_id later detail (run_plugin task context)
  finalize-task_id (refused why) =
      final-task_id later (record detail { error = why }) (record { output = null; error = none })

  pub finalize-encodable :
      (r : Resolved Entries)
      → ((t : Task) (context : Entries) → is_encodable (run_plugin t context).output ≡ true)
      → is_encodable detail.result ≡ true
      → is_encodable (finalize later (run_context run_plugin task r detail)).result ≡ true
  unfolding run_context is_encodable
  finalize-encodable (resolved context) h old =
      final-encodable later detail (run_plugin task context) old (h task context)
  finalize-encodable (refused why) h old =
      final-encodable later (record detail { error = why }) (record { output = null; error = none })
        old refl

module _ (decrypt : String → Option String) (describe : Error → String)
    (run_plugin : Task → Entries → PluginResult) (c : Client) (law : IsEtcd c) (st : ExecutionStore)
    (now later : ℕ) (d : DispatchableTask) (detail : TaskDetail) (m : Map TaskDetail) where
  abbrev started : TaskDetail
  started = start_detail now d detail

  abbrev m1 : Map TaskDetail
  m1 = insert detail.task_id started m

  -- The worker left the task as it was or in progress, or it recorded its end: the records hold
  -- that, or the task in progress if the last write failed.
  abbrev pub Ran : Worked c → Type 0
  Ran w =
      ((w.signalled ≡ false) × (Holds c st w.server m ⊎ Holds c st w.server m1))
      ⊎ ((w.signalled ≡ true)
          × ((s : c.Server) × (final : TaskDetail) × Holds c st s m1
              × Finished run_plugin d.config
                  (prepare_context decrypt describe c st d.config.context end s).0 final
              × (Holds c st w.server m1 ⊎ Holds c st w.server (insert detail.task_id final m1))))
