-- ===== src/McpServer.antt =====
-- mcp-server/main.go: the tasks of the agents, kept in etcd. The client of etcd and encoding/json are
-- interfaces; the log is left out.
pub mod Reading
use Prim.Native.String.{◌++◌}
use mrmfactorytest.Prelude.{
  ℕ, String, Option, none, some, Bool, true, false, not, ◌&&◌, ◌==◌, if◌then◌else◌, trim_prefix,
}
use mrmfactorytest.Prelude.Outcomes.{Outcome, value, failure}
use mrmfactorytest.Value.{Value}
use mrmfactorytest.Store.Decimal.{pos, show}

pub record AgentTask : Type 0 where
  pub id : String
  pub status : String
  pub input : String
  pub output : Value
  pub updated_at : ℕ

-- `Json` is the type of JSON texts. json.Marshal, whose error is dropped; json.NewDecoder(…).Decode, `none` for an error; and what
-- json.Unmarshal leaves in a new task, whose error is dropped too.
pub record Codec (Json : Type 0) : Type 0 where
  pub marshal : AgentTask → Json
  pub decode : String → Option AgentTask
  pub unmarshal : Json → AgentTask

pub record Kv (Json : Type 0) : Type 1 where
  pub World : Type 0
  pub put : String → Json → World → Option String × World
  -- the value of the first pair
  pub get : String → World → Outcome String (Option Json) × World

pub record Request : Type 0 where
  pub method : String
  pub path : String
  pub body : String

pub data Body : Type 0 where
  -- http.Error and http.NotFound
  plain : String → Body
  -- application/json
  json : AgentTask → Body
  empty : Body

pub record Response : Type 0 where
  pub status : ℕ
  pub body : Body

abbrev pub refuse : ℕ → String → Response
refuse status why = record { status = status; body = plain why }

abbrev pub task_key : String → String
task_key id = "mrm/agent_tasks/" ++ id

-- The id of a new task, from the clock in nanoseconds.
abbrev pub new_id : ℕ → String
new_id nanos = "task-" ++ show (pos nanos)

module _ {Json : Type 0} (j : Codec Json) (kv : Kv Json) where
  abbrev pub put_answer : Response → Option String × kv.World → Response × kv.World
  put_answer good (none, w) = (good, w)
  put_answer good (some e, w) = (refuse 500 "Internal server error", w)

  abbrev pub save : AgentTask → Response → kv.World → Response × kv.World
  save task good w = put_answer good (kv.put (task_key task.id) (j.marshal task) w)

  abbrev create_decoded : ℕ → ℕ → Option AgentTask → kv.World → Response × kv.World
  create_decoded nanos now none w = (refuse 400 "Invalid request body", w)
  create_decoded nanos now (some task) w =
      let new = record task { id = new_id nanos; status = "pending"; updated_at = now } in
      save new (record { status = 201; body = json new }) w

  -- `nanos` and `now` are the two readings of the clock.
  unfoldable pub create_task_handler : ℕ → ℕ → Request → kv.World → Response × kv.World
  create_task_handler nanos now r = create_decoded nanos now (j.decode r.body)

  abbrev update_decoded : ℕ → String → Option AgentTask → kv.World → Response × kv.World
  update_decoded now id none w = (refuse 400 "Invalid request body", w)
  update_decoded now id (some task) w =
      save (record task { id = id; updated_at = now }) (record { status = 200; body = empty }) w

  unfoldable pub update_task_handler : ℕ → Request → String → kv.World → Response × kv.World
  update_task_handler now r id = update_decoded now id (j.decode r.body)

  abbrev pub get_answer : Outcome String (Option Json) → Response
  get_answer (failure e) = refuse 404 "Task not found"
  get_answer (value none) = refuse 404 "Task not found"
  get_answer (value (some v)) = record { status = 200; body = json (j.unmarshal v) }

  unfoldable pub get_task_handler : String → kv.World → Response × kv.World
  get_task_handler id w = let (answer, w') = kv.get (task_key id) w in (get_answer answer, w')

  unfoldable pub tasks_handler : ℕ → ℕ → Request → kv.World → Response × kv.World
  tasks_handler nanos now r w =
      let path = trim_prefix "/tasks/" r.path in
      if r.method == "POST" && path == ""
      then create_task_handler nanos now r w
      else if not (path == "")
      then (if r.method == "GET"
          then get_task_handler path w
          else if r.method == "POST"
          then update_task_handler now r path w
          else (refuse 405 "Method not allowed", w))
      else (refuse 404 "404 page not found", w)
