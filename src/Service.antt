-- ===== src/Service.antt =====
-- _archive/service/service.go: the configuration's bootstrap, and the restart of an execution.
-- `unmarshal` is yaml.Unmarshal into a `Config`, and `read_file` os.ReadFile.
pub mod Bootstrap
pub mod Reset
pub mod Resumption
use mrmfactorytest.Prelude.{
  ℕ, String, Option, none, some, List, [], ◌∷◌, ◌++◌, map, Bool, true, false, ◌==◌, if◌then◌else◌,
}
use mrmfactorytest.Value.{null}
use mrmfactorytest.Config.{Task, ActionSet, Config}
use mrmfactorytest.Errors.{
  Error, Result, ok, err, Exec, config_not_found, config_check_failed, config_read_failed,
  config_write_failed,
}
use mrmfactorytest.Etcd.{Client}
use mrmfactorytest.Store.Models.{
  ExecutionStatus, pending, in_progress, completed, ExecutionHeader, TaskDetail,
}
use mrmfactorytest.Store.Keys.{ExecutionStore}
use mrmfactorytest.Store.Operations.{
  get_fsm_config, write_fsm_config, get_header, update_header, get_all_tasks, update_task,
}
use mrmfactorytest.Runner.Execute.{execute_actions}

module _ (unmarshal : String → Option Config) (read_file : String → Result String)
    (c : Client) where
  module _ (st : ExecutionStore) where
    -- The file's text is written, and read back.
    abbrev after_write : Result (Unit {0}) → Exec c.Server Config
    after_write (ok _) s = get_fsm_config c st unmarshal s
    after_write (err e) s = (err (config_write_failed e), s)

    abbrev from_file : Result String → Exec c.Server Config
    from_file (err e) s = (err (config_read_failed e), s)
    from_file (ok yaml) s = let (answer, s') = write_fsm_config c st yaml s in after_write answer s'

    -- Only where there is no configuration is it taken from the file.
    abbrev after_check : String → Result Config → Exec c.Server Config
    after_check path (ok cfg) s = (ok cfg, s)
    after_check path (err config_not_found) s = from_file (read_file path) s
    after_check path (err e) s = (err (config_check_failed e), s)

    unfoldable pub bootstrap_fsm_config : String → Exec c.Server Config
    bootstrap_fsm_config path s =
        let (answer, s') = get_fsm_config c st unmarshal s in after_check path answer s'

abbrev pub is_completed : ExecutionStatus → Bool
is_completed completed = true
is_completed _ = false

-- The loop that resets the tasks that are not completed.
unfoldable pub reset_detail : TaskDetail → TaskDetail
reset_detail d = if is_completed d.status then d else record d {
  status = pending;
  start_time = none;
  end_time = none;
  result = null;
  error = "";
}

unfoldable pub restarted_header : ℕ → ExecutionHeader → ExecutionHeader
restarted_header now h = record h {
  status = in_progress;
  error = "";
  start_time = now;
  end_time = none;
}

-- The search of the target state's tasks in the configuration.
unfoldable pub target_tasks : String → List ActionSet → Option (List Task)
target_tasks state [] = none
target_tasks state (a ∷ rest) = if a.state == state then some a.tasks else target_tasks state rest

-- How a restart ends.
pub data RestartEnd : Type 0 where
  no_config no_header no_tasks header_not_written : Error → RestartEnd
  already_completed : RestartEnd
  task_not_written : String → Error → RestartEnd
  no_target_tasks : String → RestartEnd
  handed_off : Result Bool → RestartEnd

-- The end, the updates that `go` started, and the cluster.
pub record Restart (c : Client) : Type 0 where
  pub ending : RestartEnd
  pub spawned : List TaskDetail
  pub server : c.Server

-- What the loop of updates leaves.
pub record Updated (c : Client) : Type 0 where
  pub failure : Option (String × Error)
  pub spawned : List TaskDetail
  pub server : c.Server

module _ (c : Client) (st : ExecutionStore) where
  -- Each update that succeeds starts another one by `go`; the first that fails ends the loop.
  unfoldable pub update_all : List TaskDetail → List TaskDetail → c.Server → Updated c
  update_all [] spawned s = record { failure = none; spawned = spawned; server = s }
  update_all (t ∷ ts) spawned s =
      let (answer, s') = update_task c st t s in
      elim answer [
        | ok _ ↦ update_all ts (spawned ++ t ∷ []) s'
        | err e ↦ record { failure = some (t.task_id, e); spawned = spawned; server = s' }
      ]

-- `work` is what the dispatcher, the workers and the updates that `go` started do to the cluster;
-- `now` and `later` are the readings of the clock.
module _ (unmarshal : String → Option Config) (read_file : String → Result String) (c : Client)
    (st : ExecutionStore) (work : List TaskDetail → c.Server → c.Server) (now later : ℕ) where
  unfoldable pub resume : Config → ExecutionHeader → List TaskDetail → c.Server → Restart c
  resume cfg h spawned s = elim (target_tasks h.target_state cfg.fsm.behavior.actions) [
    | none ↦ record { ending = no_target_tasks h.target_state; spawned = spawned; server = s }
    | some tasks ↦
        let (answer, s') = execute_actions c st tasks (work spawned) later s in
        record { ending = handed_off answer; spawned = spawned; server = s' }
  ]

  unfoldable pub restart_tasks : Config → ExecutionHeader → List TaskDetail → c.Server → Restart c
  restart_tasks cfg h tasks s =
      let u = update_all c st tasks [] s in
      elim u.failure [
        | none ↦ resume cfg h u.spawned u.server
        | some failed ↦ record {
          ending = task_not_written failed.0 failed.1;
          spawned = u.spawned;
          server = u.server;
        }
      ]

  abbrev stopped : RestartEnd → c.Server → Restart c
  stopped e s = record { ending = e; spawned = []; server = s }

  unfoldable pub restart_header : Config → ExecutionHeader → List TaskDetail → c.Server → Restart c
  restart_header cfg h tasks s =
      let (answer, s') = update_header c st (restarted_header now h) s in
      elim answer [
        | ok _ ↦ restart_tasks cfg (restarted_header now h) (map reset_detail tasks) s'
        | err e ↦ stopped (header_not_written e) s'
      ]

  unfoldable pub restart_unfinished : Config → ExecutionHeader → c.Server → Restart c
  restart_unfinished cfg h s =
      let (answer, s') = get_all_tasks c st s in
      elim answer [ ok tasks ↦ restart_header cfg h tasks s' | err e ↦ stopped (no_tasks e) s' ]

  unfoldable pub restart_found : Config → ExecutionHeader → c.Server → Restart c
  restart_found cfg h s =
      let unfinished = restart_unfinished cfg h s in
      if is_completed h.status then stopped already_completed s else unfinished

  unfoldable pub restart_configured : Config → c.Server → Restart c
  restart_configured cfg s =
      let (answer, s') = get_header c st s in
      elim answer [ ok h ↦ restart_found cfg h s' | err e ↦ stopped (no_header e) s' ]

  unfoldable pub restart_fsm : c.Server → Restart c
  restart_fsm s =
      let (answer, s') = bootstrap_fsm_config unmarshal read_file c st "fsm-config.yaml" s in
      elim answer [ ok cfg ↦ restart_configured cfg s' | err e ↦ stopped (no_config e) s' ]
