-- ===== src/Tests/Data.antt =====
-- The inputs of the tests: a small action of three tasks, and details of it.
use mrmfactorytest.Prelude.{String, none, some, List, [], ◌∷◌, Map, true, false}
use mrmfactorytest.Value.{end, null}
use mrmfactorytest.Config.{Task, Config}
use mrmfactorytest.Store.Decimal.{pos}
use mrmfactorytest.Etcd.Memory.{Memory}
use mrmfactorytest.Store.Keys.{ExecutionStore}
use mrmfactorytest.Store.Models.{
  ExecutionStatus, pending, in_progress, completed, ExecutionHeader, TaskDetail, Document, plain,
  header_json, details_json,
}

abbrev pub task : String → List String → Task
task id needs = record {
  id = id;
  package_path = "plugins/cfplugin.so";
  method = "Execute";
  output_variable = "";
  context = end;
  dependencies = some (record { tasks = needs });
}

abbrev pub stop_app : Task
stop_app = task "stop_app" []

abbrev pub drop_subs : Task
drop_subs = task "drop_subs" ("stop_app" ∷ [])

abbrev pub switch_dns : Task
switch_dns = record (task "switch_dns" []) { dependencies = none }

abbrev pub action : List Task
action = drop_subs ∷ stop_app ∷ switch_dns ∷ []

-- Two tasks that wait for one another.
abbrev pub knot : List Task
knot = task "left" ("right" ∷ []) ∷ task "right" ("left" ∷ []) ∷ []

abbrev pub detail : String → ExecutionStatus → TaskDetail
detail id status = record {
  task_id = id;
  status = status;
  iteration = pos 1;
  start_time = none;
  end_time = none;
  result = null;
  error = "";
}

abbrev pub half_done : List TaskDetail
half_done =
    detail "drop_subs" pending ∷ detail "stop_app" pending ∷ detail "switch_dns" completed ∷ []

abbrev pub job : ExecutionStore
job = record { sid = "S001"; eid = "e1" }

-- The same details under their ids.
abbrev pub half_done_map : Map TaskDetail
half_done_map =
    ("drop_subs", detail "drop_subs" pending)
    ∷ ("stop_app", detail "stop_app" pending)
    ∷ ("switch_dns", detail "switch_dns" completed)
    ∷ []

abbrev pub started_header : ExecutionHeader
started_header = record {
  sid = "S001";
  eid = "e1";
  status = in_progress;
  initial_state = "Passive";
  target_state = "Transient";
  error = "";
  start_time = 100;
  end_time = none;
}

-- A cluster in the middle of the execution, and one that fails the next calls.
abbrev pub table : Map Document
table =
    ("mrm/scenario/S001/execution/e1/details", details_json half_done_map)
    ∷ ("mrm/scenario/S001/execution/e1/header", header_json started_header)
    ∷ ("mrm/scenario/S001/execution/e1/batch_counter", plain "41")
    ∷ ("mrm/scenario/S001/current_state", plain "Passive")
    ∷ []

abbrev pub up : Memory
up = record { table = table; outages = [] }

-- The first call succeeds, the second one fails.
abbrev pub flaky : Memory
flaky = record { table = table; outages = false ∷ true ∷ [] }

abbrev pub failover : Config
failover = record {
  fsm = record {
    definition = record {
      states = "Passive" ∷ "Transient" ∷ "Active" ∷ "ErrorState" ∷ [];
      triggers = record {
        external = "SwitchToActive" ∷ [];
        internal = "SwitchFailed" ∷ "SwitchComplete" ∷ [];
      };
    };
    behavior = record {
      transitions =
          record {
            trigger = "SwitchToActive";
            changes = record { current_state = "Passive"; next_state = "Transient" } ∷ [];
          }
          ∷ record {
            trigger = "SwitchComplete";
            changes = record { current_state = "Transient"; next_state = "Active" } ∷ [];
          }
          ∷ [];
      actions = record { state = "Passive"; tasks = action } ∷ [];
    };
  };
}
