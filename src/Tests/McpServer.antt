-- ===== src/Tests/McpServer.antt =====
-- The tasks of the agents in a map; a JSON text is the task that it stands for.
use mrmfactorytest.Prelude.{
  String, Option, none, some, [], Map, lookup, insert, lookup-insert, trim_prefix, has_prefix, skip,
  ◌≡◌, ◌≢◌, ◌⊎◌, refl, sym, ◌==◌, if◌then◌else◌, arith,
}
use mrmfactorytest.Prelude.Outcomes.{Outcome, value, failure}
use mrmfactorytest.Value.{null}
use mrmfactorytest.McpServer.{
  AgentTask, Codec, Kv, Request, json, refuse, task_key, tasks_handler, update_task_handler,
}
use mrmfactorytest.McpServer.Reading.{
  IsKv, IsJson, planned, get_request, Handled, tasks_handler-Handled, tasks_handler-get,
}

abbrev codec : Codec AgentTask
codec = record {
  marshal = λ t. t;
  decode = λ body.
      if body == "{}"
      then some
          (record { id = ""; status = "completed"; input = ""; output = null; updated_at = 0 })
      else none;
  unmarshal = λ t. t;
}

abbrev kv : Kv AgentTask
kv = record {
  World = Map AgentTask;
  put = λ k v w. (none, insert k v w);
  get = λ k w. (value (lookup k w), w);
}

value-inj : {E A : Type 0} (a b : A) → ◌≡◌ {A = Outcome E A} (value a) (value b) → a ≡ b
value-inj a b e = cc

none-ne-some : {A : Type 0} (a : A) → ◌≡◌ {A = Option A} none (some a) → ⊥
none-ne-some a e = cc

abbrev kv_laws : IsKv kv
kv_laws = record {
  content = λ w k. lookup k w;
  put_made = λ k v w e i. lookup-insert k i v w;
  put_failed = λ k v w m e. absurd (none-ne-some m e);
  get_found = λ k w v e. sym (value-inj (lookup k w) v e);
  get_keeps = λ k w i. refl;
}

abbrev json_laws : IsJson codec
json_laws = record { reads = λ body t id status now e. refl }

abbrev update : Request
update = record { method = "POST"; path = "/tasks/task-7"; body = "{}" }

abbrev done : AgentTask
done = record { id = "task-7"; status = "completed"; input = ""; output = null; updated_at = 5 }

tasks_handler-Handled_example :
    let r = tasks_handler codec kv 4 5 update [] in
    Handled codec kv_laws (planned codec 4 5 update) [] r.0 r.1
tasks_handler-Handled_example = tasks_handler-Handled codec kv_laws 4 5 update []

update-planned : planned codec 4 5 update ≡ some done
unfolding trim_prefix has_prefix skip
update-planned = refl

update-accepted : (tasks_handler codec kv 4 5 update []).0.status ≢ 500
unfolding tasks_handler update_task_handler trim_prefix has_prefix skip
update-accepted = omega arith

tasks_handler-get_example :
    let w = (tasks_handler codec kv 4 5 update []).1 in
    let answer = (tasks_handler codec kv 6 6 (get_request "task-7") w).0 in
    (answer ≡ record { status = 200; body = json done })
    ⊎ ((e : String) × ((kv.get (task_key "task-7") w).0 ≡ failure e)
        × (answer ≡ refuse 404 "Task not found"))
tasks_handler-get_example =
    tasks_handler-get kv_laws json_laws 4 5 6 6 update [] done update-planned update-accepted
