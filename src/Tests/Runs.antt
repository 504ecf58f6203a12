-- ===== src/Tests/Runs.antt =====
-- A run of the machine that handles one event.
use mrmfactorytest.Prelude.{[], ◌≡◌, refl, inl, insert}
use mrmfactorytest.Etcd.Memory.{memory, write}
use mrmfactorytest.Store.Keys.{fsm_state_key}
use mrmfactorytest.Store.Operations.{set_current_fsm_state}
use mrmfactorytest.Machine.{
  Machine, done, find_change, find_transition, transition_state, find_actions,
  get_actions_for_state, is_internal_event, is_valid_event, enter_state, handle_event,
}
use mrmfactorytest.Machine.Runs.{started, handled, Reaches, sent_command, taken, Runs-Reaches}
use mrmfactorytest.Tests.Data.{up, failover}

abbrev waiting : Machine memory
waiting = sent_command memory "SwitchComplete" (record {
  cfg = failover;
  store = record { sid = "S001"; eid = "" };
  state = "Transient";
  event_chan = [];
  server = up;
})

abbrev active : Machine memory
active = record waiting {
  state = "Active";
  event_chan = [];
  server = (set_current_fsm_state memory waiting.store "Active" up).1;
}

switch_handled :
    handle_event memory
      (λ st s. s)
      "e3"
      500
      510
      "SwitchComplete"
      (taken memory "SwitchComplete" waiting)
    ≡ done active
unfolding handle_event enter_state is_valid_event is_internal_event transition_state find_transition
    find_change set_current_fsm_state get_actions_for_state find_actions write insert fsm_state_key
switch_handled = refl

Runs-Reaches_example : (failover ≡ failover) × Reaches memory failover "Transient" "Active"
Runs-Reaches_example =
    Runs-Reaches memory waiting active ("SwitchFailed", "SwitchComplete", [], refl)
      (handled (λ st s. s) "e3" "SwitchComplete" 500 510 started (inl refl) switch_handled)
