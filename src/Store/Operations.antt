-- ===== src/Store/Operations.antt =====
-- _archive/store/store.go: the methods of `ExecutionStore`, over any etcd client. Each is one
-- sequence of client calls, with the error of the first that fails.
use mrmfactorytest.Prelude.{
  ℕ, String, Option, none, some, List, [], ◌∷◌, Map, insert, values, ◌==◌, if◌then◌else◌,
}
use mrmfactorytest.Config.{Config, Task}
use mrmfactorytest.Value.{null}
use mrmfactorytest.Errors.{
  Result, ok, err, Exec, pure, raise, ◌>>=◌, ◌>>◌, state_not_found, config_not_found, bad_yaml,
  header_not_found, task_not_found, details_missing, details_unreadable,
}
use mrmfactorytest.Etcd.{Client}
use mrmfactorytest.Store.Models.{
  pending, in_progress, ExecutionHeader, TaskDetail, Document, plain, header_json, encode_details,
  decode_details, decode_header, as_string,
}
use mrmfactorytest.Store.Decimal.{ℤ, pos, increment, show, atoi}
use mrmfactorytest.Store.Keys.{
  ExecutionStore, fsm_state_key, fsm_config_key, execution_header_key, execution_details_key,
  batch_counter_key, active_eid_key,
}

abbrev from_result : {S A : Type 0} → Result A → Exec S A
from_result r s = (r, s)

abbrev state_of : {S : Type 0} → Option Document → Exec S String
state_of none = raise state_not_found
state_of (some doc) = pure (as_string doc)

abbrev header_of : {S : Type 0} → String → Option Document → Exec S ExecutionHeader
header_of eid none = raise (header_not_found eid)
header_of eid (some doc) = from_result (decode_header doc)

abbrev tasks_of : {S : Type 0} → Option Document → Exec S (List TaskDetail)
tasks_of none = pure []
tasks_of (some doc) = do details ← from_result (decode_details doc); pure (values details)

-- The loop of `GetTask`.
unfoldable pub find_task : String → List TaskDetail → Result TaskDetail
find_task id [] = err (task_not_found id)
find_task id (t ∷ ts) = if t.task_id == id then ok t else find_task id ts

-- An error of `Get` is wrapped.
abbrev details_of : {S : Type 0} → Result (Option Document) → Exec S (Map TaskDetail)
details_of (err e) = raise (details_unreadable e)
details_of (ok none) = raise details_missing
details_of (ok (some doc)) = from_result (decode_details doc)

abbrev pub counter_of : Option Document → ℤ
counter_of none = pos 0
counter_of (some doc) = atoi (as_string doc)

abbrev parsed : {S : Type 0} → Option Config → Exec S Config
parsed none = raise bad_yaml
parsed (some cfg) = pure cfg

abbrev config_of : {S : Type 0} → (String → Option Config) → Option Document → Exec S Config
config_of unmarshal none = raise config_not_found
config_of unmarshal (some doc) = parsed (unmarshal (as_string doc))

abbrev pub initial_detail : Task → TaskDetail
initial_detail t = record {
  task_id = t.id;
  status = pending;
  iteration = pos 1;
  start_time = none;
  end_time = none;
  result = null;
  error = "";
}

unfoldable pub initial_details : List Task → Map TaskDetail → Map TaskDetail
initial_details [] m = m
initial_details (t ∷ ts) m = initial_details ts (insert t.id (initial_detail t) m)

abbrev pub initial_header : ExecutionStore → String → String → ℕ → ExecutionHeader
initial_header st from to now = record {
  sid = st.sid;
  eid = st.eid;
  status = in_progress;
  initial_state = from;
  target_state = to;
  error = "";
  start_time = now;
  end_time = none;
}

-- The three writes of the transaction.
unfoldable pub initial_records :
    ExecutionStore → String → String → List Task → ℕ → List (String × Document)
initial_records st from to tasks now =
    (execution_header_key st, header_json (initial_header st from to now))
    ∷ (execution_details_key st, encode_details (initial_details tasks []))
    ∷ (batch_counter_key st, plain "0")
    ∷ []

module _ (c : Client) (st : ExecutionStore) where
  unfoldable pub get_current_fsm_state : Exec c.Server String
  get_current_fsm_state = do found ← c.get (fsm_state_key st); state_of found

  unfoldable pub set_current_fsm_state : String → Exec c.Server (Unit {0})
  set_current_fsm_state state = c.put (fsm_state_key st) (plain state)

  unfoldable pub set_active_eid : String → Exec c.Server (Unit {0})
  set_active_eid eid = c.put (active_eid_key st) (plain eid)

  -- `now` is the reading of the clock.
  unfoldable pub initialize_execution : String → String → List Task → ℕ → Exec c.Server (Unit {0})
  initialize_execution from to tasks now = c.put_all (initial_records st from to tasks now)

  unfoldable pub get_header : Exec c.Server ExecutionHeader
  get_header = do found ← c.get (execution_header_key st); header_of st.eid found

  unfoldable pub update_header : ExecutionHeader → Exec c.Server (Unit {0})
  update_header header = c.put (execution_header_key st) (header_json header)

  unfoldable pub get_all_tasks : Exec c.Server (List TaskDetail)
  get_all_tasks = do found ← c.get (execution_details_key st); tasks_of found

  unfoldable pub get_task : String → Exec c.Server TaskDetail
  get_task id = do tasks ← get_all_tasks; from_result (find_task id tasks)

  unfoldable pub update_task_in_details : TaskDetail → Exec c.Server (Unit {0})
  update_task_in_details detail s =
      let (answer, s') = c.get (execution_details_key st) s in
      (details_of answer >>= λ details.
      c.put (execution_details_key st) (encode_details (insert detail.task_id detail details)))
        s'

  unfoldable pub update_task : TaskDetail → Exec c.Server (Unit {0})
  update_task detail = update_task_in_details detail

  -- The caller looks at the number only where there is no error.
  unfoldable pub increment_batch_counter : Exec c.Server ℤ
  increment_batch_counter = do
    found ← c.get (batch_counter_key st)
    c.put (batch_counter_key st) (plain (show (increment (counter_of found))))
    pure (increment (counter_of found))

  -- `unmarshal` is yaml.Unmarshal into a `Config`.
  unfoldable pub get_fsm_config : (String → Option Config) → Exec c.Server Config
  get_fsm_config unmarshal = do found ← c.get (fsm_config_key st); config_of unmarshal found

  unfoldable pub write_fsm_config : String → Exec c.Server (Unit {0})
  write_fsm_config text = c.put (fsm_config_key st) (plain text)
