-- ===== src/Handlers.antt =====
-- internal/handlers/handlers.go and _archive/handlers/handlers.go: what the endpoints answer, and the
-- calls of the server that they start with `go`. The decoder of the body is an argument.
pub mod Accepting
use Prim.Native.String.{◌++◌}
use mrmfactorytest.Prelude.{
  ℕ, String, Option, none, some, List, [], ◌∷◌, Map, lookup, Bool, not, ◌||◌, ◌==◌, if◌then◌else◌,
}

-- `query` has the first value of each parameter.
pub record Request : Type 0 where
  pub method : String
  pub body : String
  pub query : Map String

pub data Call : Type 0 where
  -- OrchestrateAgentExecution
  orchestrate_agent_execution : String → Call
  -- OrchestrateExecutionFromConfigMap
  orchestrate_execution_from_config_map : String → String → Call
  -- RestartFSM
  restart_fsm : String → String → Call

pub record Answer : Type 0 where
  pub status : ℕ
  pub text : String
  pub started : List Call

abbrev pub refuse : ℕ → String → Answer
refuse status text = record { status = status; text = text; started = [] }

abbrev pub accept : String → Call → Answer
accept text call = record { status = 202; text = text; started = call ∷ [] }

unfoldable pub health : Request → Answer
health r = refuse 200 "OK\n"

abbrev pub assigned : Option String → Answer
assigned none = refuse 400 "Invalid request body"
assigned (some topic) =
    if topic == ""
    then refuse 400 "Missing 'topic' in request body"
    else accept ("Accepted new agent assignment for topic: " ++ (topic ++ "\n"))
        (orchestrate_agent_execution topic)

unfoldable pub assignments : (String → Option String) → Request → Answer
assignments decode r =
    if not (r.method == "POST")
    then refuse 405 "Only POST method is allowed"
    else assigned (decode r.body)

abbrev pub executed : Option (String × String) → Answer
executed none = refuse 400 "Invalid request body"
executed (some (command, config_map_name)) =
    if command == "" || config_map_name == ""
    then refuse 400 "Missing 'command' or 'configMapName' in request body"
    else accept ("Accepted execution request for config: " ++ (config_map_name ++ "\n"))
        (orchestrate_execution_from_config_map config_map_name command)

-- The body's command and configMapName.
unfoldable pub execute : (String → Option (String × String)) → Request → Answer
execute decode r =
    if not (r.method == "POST")
    then refuse 405 "Only POST method is allowed"
    else executed (decode r.body)

unfoldable pub parameter : String → Request → String
parameter name r = elim (lookup name r.query) [ none ↦ "" | some v ↦ v ]

unfoldable pub restart : Request → Answer
restart r =
    if not (r.method == "POST")
    then refuse 405 "Method not allowed"
    else if parameter "sid" r == "" || parameter "eid" r == ""
    then refuse 400 "Missing 'sid' or 'eid' query parameter"
    else accept ("Accepted restart request for EID: " ++ (parameter "eid" r ++ "\n"))
        (restart_fsm (parameter "sid" r) (parameter "eid" r))
