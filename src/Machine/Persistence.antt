-- ===== src/Machine/Persistence.antt =====
-- The state in etcd follows the machine's.
use mrmfactorytest.Prelude.{
  ℕ, String, none, some, List, [], ◌∷◌, Bool, true, false, ◌≡◌, ◌⊎◌, inl, inr, refl, ◌∙◌,
  Bool-cases, String-cases,
}
use mrmfactorytest.Config.{Task}
use mrmfactorytest.Errors.{Error, err, continue, Result-cases}
use mrmfactorytest.Etcd.{Client, IsEtcd, write_all}
use mrmfactorytest.Etcd.Laws.{put_outcome}
use mrmfactorytest.Store.Models.{plain, decode_details}
use mrmfactorytest.Store.Keys.{
  ExecutionStore, fsm_state_key, execution_details_key, header-ne-state, details-ne-state,
  batch-ne-state,
}
use mrmfactorytest.Store.Operations.{
  set_current_fsm_state, initialize_execution, initial_records, get_all_tasks,
}
use mrmfactorytest.Store.Details.{Unchanged}
use mrmfactorytest.Runner.Cycle.{
  Outcome, returns, fails, timeout, CycleError, detect_dependency_cycle,
}
use mrmfactorytest.Runner.Execute.{final_success, conclude, execute_actions}
use mrmfactorytest.Runner.Execute.Conclusion.{close_header-CloseOutcome}
use mrmfactorytest.Machine.{
  Machine, emit, outcome_event, transition_state, get_actions_for_state, is_internal_event,
  is_valid_event, run_actions, run_unless_internal, enter_state, handle_event,
}
use mrmfactorytest.Machine.Handling.{Ends, Ends-mono, HasOutcomes}

Outcome-cases :
    {A : Type 0} (o : Outcome A)
    → ((a : A) × (o ≡ returns a)) ⊎ ((e : CycleError) × (o ≡ fails e)) ⊎ (o ≡ timeout)
Outcome-cases (returns a) = inl (a, refl)
Outcome-cases (fails e) = inr (inl (e, refl))
Outcome-cases timeout = inr (inr refl)

module _ (c : Client) (law : IsEtcd c) where
  -- The state's key holds the same in both clusters.
  abbrev pub StateKept : ExecutionStore → c.Server → c.Server → Type 0
  StateKept st s s' = c.content s' (fsm_state_key st) ≡ c.content s (fsm_state_key st)

  module _ (st : ExecutionStore) where
    get_all_tasks-Unchanged : (s : c.Server) → Unchanged c s (get_all_tasks c st s).1
    unfolding get_all_tasks
    get_all_tasks-Unchanged s j =
        let read = law.get_content (execution_details_key st) s j in
        elim (Result-cases (c.get (execution_details_key st) s).0) [
          | inr (x, e) ↦ rw (e, continue) read
          | inl (none, e) ↦ rw (e, continue) read
          | inl (some doc, e) ↦ elim (Result-cases (decode_details doc)) [
            | inl (m, f) ↦ rw (e, continue, f) read
            | inr (x, f) ↦ rw (e, continue, f) read
          ]
        ]

    conclude-StateKept : (now : ℕ) (s : c.Server) → StateKept st s (conclude c st now s).1
    unfolding conclude
    conclude-StateKept now s =
        let read = get_all_tasks-Unchanged s (fsm_state_key st) in
        elim (Result-cases (get_all_tasks c st s).0) [
          | inr (x, e) ↦ rw (e, conclude) read
          | inl (ts, e) ↦
              rw (e, conclude)
                ((close_header-CloseOutcome c law st (final_success ts) now
                      (get_all_tasks c st s).1).1
                    (fsm_state_key st) (header-ne-state st)
                  ∙ read)
        ]

    execute_actions-StateKept :
        (ts : List Task) (work : c.Server → c.Server) (now : ℕ) (s : c.Server)
        → ((s : c.Server) → StateKept st s (work s))
        → StateKept st s (execute_actions c st ts work now s).1
    unfolding execute_actions
    execute_actions-StateKept [] work now s keeps =
        elim (Outcome-cases (detect_dependency_cycle [])) [
          | inr (inl (x, e)) ↦ rw (e, execute_actions) refl
          | inr (inr e) ↦ rw (e, execute_actions) refl
          | inl (u, e) ↦ rw (e, execute_actions) refl
        ]
    execute_actions-StateKept (t ∷ ts) work now s keeps =
        elim (Outcome-cases (detect_dependency_cycle (t ∷ ts))) [
          | inr (inl (x, e)) ↦ rw (e, execute_actions) refl
          | inr (inr e) ↦ rw (e, execute_actions) refl
          | inl (u, e) ↦ rw (e, execute_actions) (conclude-StateKept now (work s) ∙ keeps s)
        ]

    initialize_execution-StateKept :
        (from to : String) (ts : List Task) (now : ℕ) (s : c.Server)
        → StateKept st s (initialize_execution c st from to ts now s).1
    unfolding initialize_execution initial_records
    initialize_execution-StateKept from to ts now s =
        elim (Result-cases (c.put_all (initial_records st from to ts now) s).0) [
          | inl (u, e) ↦
              law.put_all_content (initial_records st from to ts now) s e (fsm_state_key st) ∙ apart
          | inr (x, e) ↦ elim (law.put_all_failed (initial_records st from to ts now) s x e) [
            | inl same ↦ same (fsm_state_key st)
            | inr made ↦ made (fsm_state_key st) ∙ apart
          ]
        ]
      where
        apart :
            write_all (initial_records st from to ts now) (c.content s) (fsm_state_key st)
            ≡ c.content s (fsm_state_key st)
        apart = rw (batch-ne-state st, details-ne-state st, header-ne-state st) refl

  -- The key of the machine's state holds its state.
  abbrev pub Persisted : Machine c → Type 0
  Persisted m = c.content m.server (fsm_state_key m.store) ≡ some (plain m.state)

  module _ (work : ExecutionStore → c.Server → c.Server) (eid : String) (now later : ℕ) where
    -- What runs the tasks leaves the key of the state alone.
    abbrev pub WorkKeeps : Machine c → Type 0
    WorkKeeps m = (st : ExecutionStore) (s : c.Server) → StateKept m.store s (work st s)

    emit-Persisted :
        (m : Machine c) (b : Bool)
        → HasOutcomes m.cfg
        → Persisted m
        → Ends Persisted (emit c m (outcome_event m.cfg.fsm.definition.triggers.internal b))
    unfolding outcome_event
    emit-Persisted m true (failed, complete, rest, e) h = rw e h
    emit-Persisted m false (failed, complete, rest, e) h = rw e h

    run_actions-Persisted :
        (from : String) (ts : List Task) (m : Machine c)
        → HasOutcomes m.cfg
        → WorkKeeps m
        → Persisted m
        → Ends Persisted (run_actions c work eid now later from ts m)
    unfolding run_actions fsm_state_key
    run_actions-Persisted from ts m outcomes keeps held =
        let st : ExecutionStore = record { sid = m.store.sid; eid = eid } in
        let created = initialize_execution c st from m.state ts now m.server in
        let kept = initialize_execution-StateKept st from m.state ts now m.server in
        elim (Result-cases created.0) [
          | inr (x, e) ↦ rw (e, run_actions) (kept ∙ held)
          | inl (u, e) ↦
              rw (e, run_actions)
                (emit-Persisted
                  (record m { server = (execute_actions c st ts (work st) later created.1).1 }) _
                  outcomes
                  (execute_actions-StateKept st ts (work st) later created.1 (keeps st)
                    ∙ kept
                    ∙ held))
        ]

    run_unless_internal-Persisted :
        (from : String) (internal : Bool) (ts : List Task) (m : Machine c)
        → HasOutcomes m.cfg
        → WorkKeeps m
        → Persisted m
        → Ends Persisted (run_unless_internal c work eid now later internal from ts m)
    run_unless_internal-Persisted from true ts m outcomes keeps held = held
    run_unless_internal-Persisted from false [] m outcomes keeps held = held
    run_unless_internal-Persisted from false (t ∷ ts) m outcomes keeps held =
        run_actions-Persisted from (t ∷ ts) m outcomes keeps held

    -- The state is in etcd, or its write failed, which is only logged.
    abbrev pub PersistedOrFailed : Machine c → Machine c → Type 0
    PersistedOrFailed before m =
        Persisted m
        ⊎ ((e : Error) × ((set_current_fsm_state c before.store m.state before.server).0 ≡ err e))

    enter_state-Persisted :
        (event from : String) (m : Machine c)
        → HasOutcomes m.cfg
        → WorkKeeps m
        → Ends (PersistedOrFailed m) (enter_state c work eid now later event from m)
    unfolding enter_state set_current_fsm_state
    enter_state-Persisted event from m outcomes keeps =
        elim (put_outcome law (fsm_state_key m.store) (plain m.state) m.server) [
          | inr (x, e, _) ↦ rw (e, enter_state) (inr (x, e))
          | inl (e, made) ↦
              let m' : Machine c = record m {
                server = (set_current_fsm_state c m.store m.state m.server).1;
              } in
              rw (e, enter_state)
                (Ends-mono c work eid now later Persisted (PersistedOrFailed m)
                  (run_unless_internal c work eid now later (is_internal_event m.cfg event) from
                    (get_actions_for_state m.cfg from) m')
                  (λ w h. inl h)
                  (run_unless_internal-Persisted from (is_internal_event m.cfg event)
                    (get_actions_for_state m.cfg from) m' outcomes keeps made))
        ]

    -- Where etcd holds the machine's state before an event, it holds the new one after it, with the
    -- records of an execution written in between, or the write of the new state failed.
    pub handle_event-Persisted :
        (event : String) (m : Machine c)
        → HasOutcomes m.cfg
        → WorkKeeps m
        → Persisted m
        → Ends (PersistedOrFailed m) (handle_event c work eid now later event m)
    unfolding handle_event
    handle_event-Persisted event m outcomes keeps held =
        elim (Bool-cases (is_valid_event m.cfg event)) [
          | inr bad ↦ rw (bad, handle_event) (inl held)
          | inl valid ↦ elim (String-cases (transition_state m.cfg m.state event) m.state) [
            | inl (same, test) ↦ rw (valid, test, handle_event) (inl held)
            | inr (differ, test) ↦
                rw (valid, test, handle_event)
                  (enter_state-Persisted event m.state
                    (record m { state = transition_state m.cfg m.state event }) outcomes keeps)
          ]
        ]
