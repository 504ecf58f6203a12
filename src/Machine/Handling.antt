-- ===== src/Machine/Handling.antt =====
-- What the handler of an event does to the machine, on every branch.
use mrmfactorytest.Prelude.{
  ℕ, String, some, List, [], ◌∷◌, ◌++◌, true, false, Bool, ◌≡◌, ◌≢◌, ◌⊎◌, inl, inr, refl, ◌∙◌, sym,
  Bool-cases, String-cases,
}
use mrmfactorytest.Config.{Task, Config}
use mrmfactorytest.Errors.{Result-cases}
use mrmfactorytest.Etcd.{Client}
use mrmfactorytest.Store.Keys.{ExecutionStore}
use mrmfactorytest.Store.Operations.{set_current_fsm_state, initialize_execution}
use mrmfactorytest.Machine.{
  emit, Machine, Ending, done, panic, transition_state, get_actions_for_state, is_internal_event,
  is_valid_event, outcome_event, run_actions, run_unless_internal, enter_state, handle_event,
}
use mrmfactorytest.Machine.Events.{Allows, transition_state-Allows}

-- How an event's handling may end, as seen from the machine before it.
abbrev pub Ends {ℓ} : {A : Type ℓ} → (A → Type 0) → Ending A → Type 0
Ends P (done a) = P a
Ends P panic = ⊥

abbrev pub Table : Config → String → String → String → Type 0
Table cfg = Allows cfg.fsm.behavior.transitions

-- Two internal triggers are declared: the one for a failure, and the one for a success.
abbrev pub HasOutcomes : Config → Type 0
HasOutcomes cfg =
    (failed : String) × (complete : String) × (rest : List String)
    × (cfg.fsm.definition.triggers.internal ≡ failed ∷ complete ∷ rest)

-- The channel is as it was, or got one internal event: that of a success or of a failure.
abbrev pub OneOutcome : {c : Client} → Machine c → Machine c → Type 0
OneOutcome m m' =
    (b : Bool) × (event : String) × (outcome_event m.cfg.fsm.definition.triggers.internal b
      ≡ some event)
    × (m'.event_chan ≡ m.event_chan ++ event ∷ [])

-- An external event whose old state has tasks.
abbrev pub RunsTasks : Config → String → String → Type 0
RunsTasks cfg event state =
    (is_internal_event cfg event ≡ false) × (get_actions_for_state cfg state ≢ [])

-- Either nothing changed, or the event is valid, the new state is one that the table allows, and
-- at most one event was sent, that only after tasks of the old state.
abbrev pub Handled : {c : Client} → String → Machine c → Machine c → Type 0
Handled event m m' =
    (m' ≡ m)
    ⊎ ((m'.cfg ≡ m.cfg)
        × (m'.store ≡ m.store)
        × (is_valid_event m.cfg event ≡ true)
        × Table m.cfg event m.state m'.state
        × ((m'.event_chan ≡ m.event_chan) ⊎ (OneOutcome m m' × RunsTasks m.cfg event m.state)))

module _ (c : Client) (work : ExecutionStore → c.Server → c.Server) (eid : String)
    (now later : ℕ) where
  -- Nothing but the cluster changed, or one internal event was added to the channel.
  abbrev Follows : Machine c → Machine c → Type 0
  Follows m m' =
      (m'.cfg ≡ m.cfg)
      × (m'.store ≡ m.store)
      × (m'.state ≡ m.state)
      × ((m'.event_chan ≡ m.event_chan) ⊎ OneOutcome m m')

  emit-Follows :
      (m : Machine c) (server : c.Server) (b : Bool)
      → HasOutcomes m.cfg
      → Ends (Follows m) (
          emit c
            (record m { server = server })
            (outcome_event m.cfg.fsm.definition.triggers.internal b))
  unfolding outcome_event
  emit-Follows m server true (failed, complete, rest, e) =
      rw e (refl, refl, refl, inr (true, complete, refl, refl))
  emit-Follows m server false (failed, complete, rest, e) =
      rw e (refl, refl, refl, inr (false, failed, refl, refl))

  run_actions-Follows :
      (from : String) (ts : List Task) (m : Machine c)
      → HasOutcomes m.cfg
      → Ends (Follows m) (run_actions c work eid now later from ts m)
  unfolding run_actions
  run_actions-Follows from ts m h =
      elim (Result-cases
        (initialize_execution c (record { sid = m.store.sid; eid = eid }) from m.state ts now
          m.server).0) [
            | inl (u, f) ↦ rw (f, run_actions) (emit-Follows m _ _ h)
            | inr (x, f) ↦ rw (f, run_actions) (refl, refl, refl, inl refl)
          ]

  -- The branch on internal events and on an empty list of tasks.
  abbrev Entered : String → String → Machine c → Machine c → Type 0
  Entered event from m m' =
      (m'.cfg ≡ m.cfg)
      × (m'.store ≡ m.store)
      × (m'.state ≡ m.state)
      × ((m'.event_chan ≡ m.event_chan) ⊎ (OneOutcome m m' × RunsTasks m.cfg event from))

  pub Ends-mono :
      {A : Type 0} (P Q : A → Type 0) (r : Ending A) → ((a : A) → P a → Q a) → Ends P r → Ends Q r
  Ends-mono P Q (done a) f h = f a h
  Ends-mono P Q panic f h = h

  run_unless_internal-Entered :
      (event from : String) (internal : Bool) (ts : List Task) (m m' : Machine c)
      → HasOutcomes m.cfg
      → is_internal_event m.cfg event ≡ internal
      → get_actions_for_state m.cfg from ≡ ts
      → Ends (Entered event from m) (run_unless_internal c work eid now later internal from ts m)
  run_unless_internal-Entered event from true ts m m' h i a = (refl, refl, refl, inl refl)
  run_unless_internal-Entered event from false [] m m' h i a = (refl, refl, refl, inl refl)
  run_unless_internal-Entered event from false (t ∷ ts) m m' h i a =
      Ends-mono (Follows m) (Entered event from m)
        (run_actions c work eid now later from (t ∷ ts) m)
        (λ w f. (
          f.0,
          f.1,
          f.2,
          elim f.3 [ inl same ↦ inl same | inr one ↦ inr (one, (i, λ e. nonempty (sym a ∙ e))) ],
        ))
        (run_actions-Follows from (t ∷ ts) m h)
    where
      nonempty : t ∷ ts ≢ []
      nonempty e = cc

  enter_state-Entered :
      (event from : String) (m : Machine c)
      → HasOutcomes m.cfg
      → Ends (Entered event from m) (enter_state c work eid now later event from m)
  unfolding enter_state
  enter_state-Entered event from m h =
      elim (Result-cases (set_current_fsm_state c m.store m.state m.server).0) [
        | inl (u, f) ↦
            rw (f, enter_state)
              (run_unless_internal-Entered event from (is_internal_event m.cfg event)
                (get_actions_for_state m.cfg from)
                (record m { server = (set_current_fsm_state c m.store m.state m.server).1 }) m h
                refl refl)
        | inr (x, f) ↦ rw (f, enter_state) (refl, refl, refl, inl refl)
      ]

  -- The machine once `fsm.State = nextState` is done.
  abbrev moved : String → Machine c → Machine c
  moved event m = record m { state = transition_state m.cfg m.state event }

  moves :
      (event : String) (m : Machine c)
      → transition_state m.cfg m.state event ≢ m.state
      → Table m.cfg event m.state (transition_state m.cfg m.state event)
  moves event m differ = elim (transition_state-Allows m.cfg m.state event) [
    | inl allowed ↦ allowed
    | inr (stays, never) ↦ absurd (differ stays)
  ]

  -- With an event for each outcome declared, handling any event ends without a panic. It changes
  -- nothing, or the event is declared, the machine is in a state that the transition table allows
  -- from the old one, and at most one event was sent: an outcome's, and only where the event is
  -- external and the old state has tasks.
  pub handle_event-Handled :
      (event : String) (m : Machine c)
      → HasOutcomes m.cfg
      → Ends (Handled event m) (handle_event c work eid now later event m)
  unfolding handle_event
  handle_event-Handled event m h = elim (Bool-cases (is_valid_event m.cfg event)) [
    | inr bad ↦ rw bad (inl refl)
    | inl valid ↦ elim (String-cases (transition_state m.cfg m.state event) m.state) [
      | inl (same, test) ↦ rw (valid, test) (inl refl)
      | inr (differ, test) ↦
          rw (valid, test)
            (Ends-mono (Entered event m.state (moved event m)) (Handled event m)
              (enter_state c work eid now later event m.state (moved event m))
              (λ w f. inr (f.0, f.1, valid, rw f.2 (moves event m differ), f.3))
              (enter_state-Entered event m.state (moved event m) h))
    ]
  ]
