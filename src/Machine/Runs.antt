-- ===== src/Machine/Runs.antt =====
-- _archive/fsm/fsm.go: `Run`, as a relation: the command is put on the channel, and each event that is
-- taken from it is handled by a goroutine of its own under the mutex, so in any order.
use mrmfactorytest.Prelude.{
  ℕ, String, List, [], ◌∷◌, ◌++◌, ◌≡◌, ◌⊎◌, inl, inr, refl, sym, subst, ◌∙◌, ap, In, ◌==◌,
  if◌then◌else◌,
}
use mrmfactorytest.Config.{Config}
use mrmfactorytest.Etcd.{Client}
use mrmfactorytest.Store.Keys.{ExecutionStore}
use mrmfactorytest.Machine.{Machine, done, handle_event}
use mrmfactorytest.Machine.Handling.{Ends, HasOutcomes, Handled, Table, handle_event-Handled}

-- The channel without one of the events.
abbrev pub take_event : String → List String → List String
take_event event [] = []
take_event event (e ∷ rest) = if e == event then rest else e ∷ take_event event rest

module _ (c : Client) where
  -- m.eventChan <- Event(m.runner.GetCommand())
  abbrev pub sent_command : String → Machine c → Machine c
  sent_command command m = record m { event_chan = m.event_chan ++ command ∷ [] }

  abbrev pub taken : String → Machine c → Machine c
  taken event m = record m { event_chan = take_event event m.event_chan }

  -- The states of the machine that a run may lead to. What runs the tasks, the id and the clock may
  -- differ from one event to the next.
  pub data Runs (m : Machine c) : Machine c → Type 0 where
    started : Runs m m
    handled :
        {m' m'' : Machine c} (work : ExecutionStore → c.Server → c.Server) (eid event : String)
        (now later : ℕ)
        → Runs m m'
        → In event m'.event_chan
        → handle_event c work eid now later event (taken event m') ≡ done m''
        → Runs m m''

  -- A path through the transition table.
  pub data Reaches (cfg : Config) (s : String) : String → Type 0 where
    stays : Reaches cfg s s
    moves :
        {s' s'' : String} (event : String)
        → Reaches cfg s s'
        → Table cfg event s' s''
        → Reaches cfg s s''

  Handled-Reaches :
      (event : String) (m m' : Machine c)
      → Handled event m m'
      → (m'.cfg ≡ m.cfg) × ((m'.state ≡ m.state) ⊎ Table m.cfg event m.state m'.state)
  Handled-Reaches event m m' (inl same) =
      (ap (λ (x : Machine c). x.cfg) same, inl (ap (λ (x : Machine c). x.state) same))
  Handled-Reaches event m m' (inr (cfg, store, valid, table, sent)) = (cfg, inr table)

  -- Whatever events are handled, in whatever order, the configuration stays and the machine's state
  -- is one to which the transition table leads from the first. An event for each outcome is declared.
  pub Runs-Reaches :
      (m m' : Machine c)
      → HasOutcomes m.cfg
      → Runs m m'
      → (m'.cfg ≡ m.cfg) × Reaches m.cfg m.state m'.state
  Runs-Reaches m m' outcomes started = (refl, stays)
  Runs-Reaches m m'' outcomes (handled {m'} work eid event now later before place e) =
      let (same, reached) = Runs-Reaches m m' outcomes before in
      let outcomes' = subst HasOutcomes (sym same) outcomes in
      let h : Ends (Handled event (taken event m')) (done m'') =
        rw e at (handle_event-Handled c work eid now later event (taken event m') outcomes') in
      let (cfg, step) = Handled-Reaches event (taken event m') m'' h in
      (
        cfg ∙ same,
        elim step [
          | inl stay ↦ subst (λ (s : String). Reaches m.cfg m.state s) (sym stay) reached
          | inr table ↦
              moves event reached
                (subst (λ (x : Config). Table x event m'.state m''.state) same table)
        ],
      )
