-- ===== src/Machine.antt =====
-- _archive/fsm/fsm.go: the state machine. The task runner's `ExecuteActions` is a parameter of the
-- handler of an event.
pub mod Events
pub mod Handling
pub mod Persistence
pub mod Runs
use mrmfactorytest.Prelude.{
  ℕ, String, Option, none, some, List, [], ◌∷◌, ◌++◌, Bool, true, false, ◌&&◌, ◌||◌, not, mem, ◌==◌,
  if◌then◌else◌,
}
use mrmfactorytest.Config.{Task, ActionSet, Change, Transition, Config}
use mrmfactorytest.Errors.{Error, Result, ok, err, state_not_found}
use mrmfactorytest.Etcd.{Client}
use mrmfactorytest.Store.Keys.{ExecutionStore}
use mrmfactorytest.Runner.Execute.{execute_actions}
use mrmfactorytest.Store.Operations.{
  get_current_fsm_state, set_current_fsm_state, initialize_execution,
}

-- The machine, and what it shares: the cluster and the channel of events.
pub record Machine (c : Client) : Type 0 where
  pub cfg : Config
  pub store : ExecutionStore
  pub state : String
  pub event_chan : List String
  pub server : c.Server

-- The loop over the changes of one trigger.
unfoldable pub find_change : String → List Change → Option String
find_change state [] = none
find_change state (ch ∷ rest) =
    if ch.current_state == state then some ch.next_state else find_change state rest

abbrev pub or_next : Option String → Option String → Option String
or_next none later = later
or_next (some s) later = some s

-- The loop over the transitions; one whose changes do not fit goes on to the next.
unfoldable pub find_transition : String → String → List Transition → Option String
find_transition event state [] = none
find_transition event state (t ∷ rest) =
    let later = find_transition event state rest in
    if t.trigger == event then or_next (find_change state t.changes) later else later

abbrev pub state_or : String → Option String → String
state_or d none = d
state_or d (some s) = s

unfoldable pub transition_state : Config → String → String → String
transition_state cfg state event =
    state_or state (find_transition event state cfg.fsm.behavior.transitions)

-- The loop of `getActionsForState`.
unfoldable pub find_actions : String → List ActionSet → List Task
find_actions state [] = []
find_actions state (a ∷ rest) = if a.state == state then a.tasks else find_actions state rest

unfoldable pub get_actions_for_state : Config → String → List Task
get_actions_for_state cfg state = find_actions state cfg.fsm.behavior.actions

unfoldable pub is_internal_event : Config → String → Bool
is_internal_event cfg event = mem event cfg.fsm.definition.triggers.internal

unfoldable pub is_valid_event : Config → String → Bool
is_valid_event cfg event =
    mem event cfg.fsm.definition.triggers.external || mem event cfg.fsm.definition.triggers.internal

-- How a call ends: with a value, or with Go's panic.
pub data Ending {ℓ} (A : Type ℓ) : Type ℓ where
  done : A → Ending A
  panic : Ending A

-- Triggers.Internal[1] after a success, Triggers.Internal[0] after a failure; out of range panics.
unfoldable pub outcome_event : List String → Bool → Option String
outcome_event (failed ∷ complete ∷ rest) true = some complete
outcome_event (failed ∷ rest) false = some failed
outcome_event _ _ = none

-- States[0]
abbrev pub first_state : List String → Option String
first_state [] = none
first_state (s ∷ rest) = some s

module _ (c : Client) where
  -- The event channel has room for ten; the model leaves it unbounded.
  abbrev pub emit : Machine c → Option String → Ending (Machine c)
  emit m none = panic
  emit m (some event) = done (record m { event_chan = m.event_chan ++ event ∷ [] })

  -- An error of the first write of the state is only logged.
  abbrev bootstrap : Config → ExecutionStore → Option String → c.Server → Ending (Machine c)
  bootstrap cfg st none server = panic
  bootstrap cfg st (some s) server = done (record {
    cfg = cfg;
    store = st;
    state = s;
    event_chan = [];
    server = (set_current_fsm_state c st s server).1;
  })

  -- After an error of `GetCurrentFSMState`: `ErrStateNotFound` starts in the first state, any other
  -- panics.
  abbrev start_without : Config → ExecutionStore → Error → c.Server → Ending (Machine c)
  start_without cfg st state_not_found server =
      bootstrap cfg st (first_state cfg.fsm.definition.states) server
  start_without cfg st _ server = panic

  unfoldable pub new_machine : Config → ExecutionStore → c.Server → Ending (Machine c)
  new_machine cfg st server =
      let (answer, server') = get_current_fsm_state c st server in
      elim answer [
        | ok s ↦
            done (record { cfg = cfg; store = st; state = s; event_chan = []; server = server' })
        | err e ↦ start_without cfg st e server'
      ]

  -- `success, err := ExecuteActions(…)`: an error counts as a failure.
  abbrev pub success_of : Result Bool → Bool
  success_of (ok b) = b
  success_of (err e) = false

  module _ (work : ExecutionStore → c.Server → c.Server) (eid : String) (now later : ℕ) where
    abbrev pub execution_of : Machine c → ExecutionStore
    execution_of m = record { sid = m.store.sid; eid = eid }

    -- From `execStore := …` to the next event.
    unfoldable pub run_actions : String → List Task → Machine c → Ending (Machine c)
    run_actions from tasks m =
        let (created, server') =
          initialize_execution c (execution_of m) from m.state tasks now m.server in
        let (answer, server'') =
          execute_actions c (execution_of m) tasks (work (execution_of m)) later server' in
        elim created [
          | ok _ ↦
              emit (record m { server = server'' })
                (outcome_event m.cfg.fsm.definition.triggers.internal (success_of answer))
          | err e ↦ done (record m { server = server' })
        ]

    abbrev pub run_unless_internal : Bool → String → List Task → Machine c → Ending (Machine c)
    run_unless_internal true from tasks m = done m
    run_unless_internal false from [] m = done m
    run_unless_internal false from (t ∷ ts) m = run_actions from (t ∷ ts) m

    -- What follows the change of `m.state`: its persistence, and the actions of the state left.
    unfoldable pub enter_state : String → String → Machine c → Ending (Machine c)
    enter_state event from m =
        let (answer, server') = set_current_fsm_state c m.store m.state m.server in
        elim answer [
          | ok _ ↦
              run_unless_internal (is_internal_event m.cfg event) from
                (get_actions_for_state m.cfg from) (record m { server = server' })
          | err e ↦ done (record m { server = server' })
        ]

    -- The whole handler runs under the machine's mutex.
    unfoldable pub handle_event : String → Machine c → Ending (Machine c)
    handle_event event m =
        let next = transition_state m.cfg m.state event in
        let entered = enter_state event m.state (record m { state = next }) in
        if not (is_valid_event m.cfg event)
        then done m
        else if next == m.state
        then done m
        else entered
