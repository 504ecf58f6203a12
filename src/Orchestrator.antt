-- ===== src/Orchestrator.antt =====
-- main.go: the job that runs the agents on a topic. The client of Kubernetes is an argument.
use Prim.Native.String.{◌++◌}
use mrmfactorytest.Prelude.{ℕ, String, Option, List, [], ◌∷◌}
use mrmfactorytest.Store.Decimal.{show, pos}

-- The fields that are set: of the job's metadata, its template's container, and its specification.
pub record Job : Type 0 where
  pub name : String
  pub namespace : String
  pub container : String
  pub image : String
  pub command : List String
  pub env_secret : String
  pub restart_policy : String
  pub backoff_limit : ℕ

-- The topic stands between the quotes as it is.
abbrev pub agent_command : String → String
agent_command topic =
    "python crew.py '" ++ (topic ++ "' && curl -X POST http://localhost:15020/quitquitquit")

-- `now` is the time in nanoseconds.
unfoldable pub agent_job : ℕ → String → Job
agent_job now topic = record {
  name = "agent-exec-" ++ show (pos now);
  namespace = "default";
  container = "crew-ai-agent";
  image = "arajsinha/crewai-researcher:latest";
  command = "sh" ∷ "-c" ∷ agent_command topic ∷ [];
  env_secret = "ai-api-keys";
  restart_policy = "Never";
  backoff_limit = 0;
}

-- `create_job` is Jobs("default").Create; the answer is its error, or none.
unfoldable pub orchestrate_agent_execution :
    {World : Type 0}
    → (Job → World → Option String × World)
    → ℕ
    → String
    → World
    → Option String × World
orchestrate_agent_execution create_job now topic w = create_job (agent_job now topic) w
