-- ===== src/Runner/Worker.antt =====
-- _archive/taskrunner/runner.go: what a worker does with one task that it takes from the channel.
-- The plugins are the argument `run_plugin`: the output of `executePluginTask`, or its error's
-- text.
pub mod Finish
use mrmfactorytest.Prelude.{
  ℕ, String, Option, none, some, List, [], ◌∷◌, ◌++◌, Bool, true, false, ◌&&◌, not, ◌==◌,
  if◌then◌else◌,
}
use mrmfactorytest.Value.{Value, Entries, null, end}
use mrmfactorytest.Config.{Task}
use mrmfactorytest.Errors.{Error, Result, ok, err}
use mrmfactorytest.Etcd.{Client}
use mrmfactorytest.Store.Models.{in_progress, completed, failed, TaskDetail}
use mrmfactorytest.Store.Keys.{ExecutionStore}
use mrmfactorytest.Store.Operations.{get_task, update_task}
use mrmfactorytest.Runner.Scan.{DispatchableTask}
use mrmfactorytest.Runner.Secrets.{Resolved, resolved, refused, prepare_context}

-- What a plugin returns: an output, and an error's text or none.
pub record PluginResult : Type 0 where
  pub output : Value
  pub error : Option String

-- What the worker leaves: the cluster, the updates that `go` started, and whether it signalled the
-- dispatcher.
pub record Worked (c : Client) : Type 0 where
  pub server : c.Server
  pub spawned : List TaskDetail
  pub signalled : Bool

unfoldable pub start_detail : ℕ → DispatchableTask → TaskDetail → TaskDetail
start_detail now d detail = record detail {
  status = in_progress;
  start_time = some now;
  iteration = d.iteration;
}

-- A refused context leaves its text in the detail and no plugin's result.
unfoldable pub run_context :
    (Task → Entries → PluginResult)
    → Task
    → Resolved Entries
    → TaskDetail
    → TaskDetail × PluginResult
run_context run_plugin task (resolved context) detail = (detail, run_plugin task context)
run_context run_plugin task (refused why) detail =
    (record detail { error = why }, record { output = null; error = none })

abbrev or_own : String → Option String → String
or_own own none = own
or_own own (some e) = if own == "" then e else own

-- errExec == nil && taskDetail.Error == ""
abbrev pub is_success : TaskDetail → Option String → Bool
is_success detail none = detail.error == ""
is_success detail (some e) = false

-- The block at `finalize`.
unfoldable pub finalize : ℕ → TaskDetail × PluginResult → TaskDetail
finalize later (detail, r) =
    if is_success detail r.error
    then record detail { status = completed; end_time = some later; result = r.output }
    else record detail {
      status = failed;
      end_time = some later;
      error = or_own detail.error r.error;
    }

module _ (decrypt : String → Option String) (describe : Error → String)
    (run_plugin : Task → Entries → PluginResult) (c : Client) (st : ExecutionStore) where
  -- From the context's preparation to the last update: the final detail, and the cluster.
  abbrev pub end_task : ℕ → Task → TaskDetail → c.Server → TaskDetail × c.Server
  end_task later task detail s =
      let (context, s') = prepare_context decrypt describe c st task.context end s in
      let final = finalize later (run_context run_plugin task context detail) in
      (final, (update_task c st final s').1)

  -- From the context's preparation to the signal.
  unfoldable pub finish_task : ℕ → Task → TaskDetail → c.Server → Worked c
  finish_task later task detail s =
      let (final, s') = end_task later task detail s in
      record { server = s'; spawned = detail ∷ final ∷ []; signalled = true }

  unfoldable pub start_task : ℕ → ℕ → DispatchableTask → TaskDetail → c.Server → Worked c
  start_task now later d detail s =
      let started = start_detail now d detail in
      let (answer, s') = update_task c st started s in
      elim answer [
        | ok _ ↦ finish_task later d.config started s'
        | err e ↦ record { server = s'; spawned = []; signalled = false }
      ]

  -- `now` and `later` are the two readings of the clock. An error of the first two calls leaves the
  -- task.
  unfoldable pub run_task : ℕ → ℕ → DispatchableTask → c.Server → Worked c
  run_task now later d s =
      let (answer, s') = get_task c st d.config.id s in
      elim answer [
        | ok detail ↦ start_task now later d detail s'
        | err e ↦ record { server = s'; spawned = []; signalled = false }
      ]
