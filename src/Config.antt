-- ===== src/Config.antt =====
-- internal/config/config.go: the structures of fsm-config.yaml.
use mrmfactorytest.Prelude.Outcomes.{Outcome, chain}
use mrmfactorytest.Prelude.{String, Option, none, some, List, []}
use mrmfactorytest.Value.{Entries}

pub record Dependencies : Type 0 where
  pub tasks : List String

pub record Task : Type 0 where
  pub id : String
  pub package_path : String
  pub method : String
  pub output_variable : String
  pub context : Entries
  pub dependencies : Option Dependencies

pub record ActionSet : Type 0 where
  pub state : String
  pub tasks : List Task

pub record Change : Type 0 where
  pub current_state : String
  pub next_state : String

pub record Transition : Type 0 where
  pub trigger : String
  pub changes : List Change

pub record FsmBehavior : Type 0 where
  pub transitions : List Transition
  pub actions : List ActionSet

pub record Triggers : Type 0 where
  pub external : List String
  pub internal : List String

pub record FsmDefinition : Type 0 where
  pub states : List String
  pub triggers : Triggers

pub record Fsm : Type 0 where
  pub definition : FsmDefinition
  pub behavior : FsmBehavior

pub record Config : Type 0 where
  pub fsm : Fsm

-- The ids that `task.Dependencies.Tasks` lists; none if the pointer is nil.
abbrev pub dep_ids : Option Dependencies → List String
dep_ids none = []
dep_ids (some d) = d.tasks

abbrev pub deps : Task → List String
deps t = dep_ids t.dependencies

-- `read_file` is os.ReadFile, `unmarshal` yaml.Unmarshal into a `Config`; an error is its text.
unfoldable pub load :
    (String → Outcome String String)
    → (String → Outcome String Config)
    → String
    → Outcome String Config
load read_file unmarshal file_path = chain (read_file file_path) unmarshal
