-- ===== src/Tests/Engine.antt =====
-- The runner, a worker and the machine over a cluster in memory.
use mrmfactorytest.Prelude.{
  String, Option, none, some, [], ◌∷◌, map, lookup, true, false, ◌≡◌, ◌⊎◌, refl, arith, inl, insert,
  length, ◌≤◌,
}
use mrmfactorytest.Value.{Entries, text, end}
use mrmfactorytest.Config.{Task}
use mrmfactorytest.Errors.{Error}
use mrmfactorytest.Etcd.Memory.{memory, memory-IsEtcd}
use mrmfactorytest.Store.Models.{completed, failed, skipped, details_encodable, is_encodable}
use mrmfactorytest.Store.Decimal.{pos}
use mrmfactorytest.Runner.Scan.{DispatchableTask, Statuses, check_deps, send_all}
use mrmfactorytest.Runner.Scan.Deps.{all_met, any_broken, check_deps-flags}
use mrmfactorytest.Runner.Scan.Dispatch.{tagged, send_all-append}
use mrmfactorytest.Runner.Worker.{PluginResult}
use mrmfactorytest.Runner.Conditions.{value, get_from}
use mrmfactorytest.Runner.Conditions.Access.{nested, get_from-nested}
use mrmfactorytest.Machine.{handle_event, transition_state, Machine}
use mrmfactorytest.Machine.Events.{Allows, transition_state-Allows}
use mrmfactorytest.Machine.Handling.{Ends, Handled, handle_event-Handled}
use mrmfactorytest.Machine.Persistence.{Persisted, PersistedOrFailed, handle_event-Persisted}
use mrmfactorytest.Store.Keys.{fsm_state_key}
use mrmfactorytest.Runner.Scan.{Dispatcher, dispatch_pass}
use mrmfactorytest.Runner.Scan.Ending.{HasDuplicate, dispatch_pass-never_ends}
use mrmfactorytest.Store.Operations.{initial_details}
use mrmfactorytest.Tests.Data.{job, stop_app, switch_dns, half_done_map, detail, up, failover}

abbrev mixed : Statuses
mixed = ("a", completed) ∷ ("b", failed) ∷ ("c", skipped) ∷ []

mixed_flags :
    ((check_deps mixed ("a" ∷ "b" ∷ "c" ∷ []) true).1 ≡ any_broken mixed ("a" ∷ "b" ∷ "c" ∷ []))
    × (any_broken mixed ("a" ∷ "b" ∷ "c" ∷ []) ≡ false
        → (check_deps mixed ("a" ∷ "b" ∷ "c" ∷ []) true).0 ≡ all_met mixed ("a" ∷ "b" ∷ "c" ∷ []))
mixed_flags = check_deps-flags mixed ("a" ∷ "b" ∷ "c" ∷ []) true

both_sent :
    send_all 2 (pos 7) (stop_app ∷ switch_dns ∷ []) []
    ≡ tagged (pos 7) stop_app ∷ tagged (pos 7) switch_dns ∷ []
both_sent = send_all-append 2 (pos 7) (stop_app ∷ switch_dns ∷ []) [] (omega arith)

abbrev decrypt : String → Option String
decrypt s = some s

abbrev describe : Error → String
describe e = "unavailable"

abbrev plugin : Task → Entries → PluginResult
plugin t context = record { output = text "stopped"; error = none }

pub half_done_map-fits : details_encodable half_done_map ≡ true
unfolding details_encodable is_encodable
half_done_map-fits = refl

abbrev dispatched : DispatchableTask
dispatched = record { config = stop_app; iteration = pos 1 }

nested_found :
    get_from
      (nested "stop_app" ("status" ∷ []) (text "done") end)
      (map text ("stop_app" ∷ "status" ∷ []))
    ≡ value (text "done")
nested_found = get_from-nested "stop_app" ("status" ∷ []) (text "done") end

transition_state-Allows_example :
    Allows failover.fsm.behavior.transitions "SwitchToActive" "Passive"
      (transition_state failover "Passive" "SwitchToActive")
    ⊎ ((transition_state failover "Passive" "SwitchToActive" ≡ "Passive")
        × ((s' : String)
            → ¬ Allows failover.fsm.behavior.transitions "SwitchToActive" "Passive" s'))
transition_state-Allows_example = transition_state-Allows failover "Passive" "SwitchToActive"

abbrev machine : Machine memory
machine = record {
  cfg = failover;
  store = record { sid = "S001"; eid = "" };
  state = "Passive";
  event_chan = [];
  server = up;
}

handle_event-Handled_example :
    Ends
      (Handled "SwitchToActive" machine)
      (handle_event memory (λ st s. s) "e2" 300 310 "SwitchToActive" machine)
handle_event-Handled_example =
    handle_event-Handled memory (λ st s. s) "e2" 300 310 "SwitchToActive" machine
      ("SwitchFailed", "SwitchComplete", [], refl)

machine-Persisted : Persisted memory memory-IsEtcd machine
unfolding lookup fsm_state_key
machine-Persisted = refl

handle_event-Persisted_example :
    Ends
      (PersistedOrFailed memory memory-IsEtcd (λ st s. s) "e2" 300 310 machine)
      (handle_event memory (λ st s. s) "e2" 300 310 "SwitchToActive" machine)
handle_event-Persisted_example =
    handle_event-Persisted memory memory-IsEtcd (λ st s. s) "e2" 300 310 "SwitchToActive" machine
      ("SwitchFailed", "SwitchComplete", [], refl) (λ st s. refl) machine-Persisted

abbrev pub dispatcher : Dispatcher memory
dispatcher = record { server = up; queue = []; capacity = 3; spawned = []; all_finished = false }

two_runs_few :
    length (detail "stop_app" completed ∷ [])
    ≤ length (initial_details (stop_app ∷ stop_app ∷ []) [])
unfolding initial_details insert
two_runs_few = omega arith

two_runs_twice : HasDuplicate (stop_app ∷ stop_app ∷ [])
two_runs_twice = inl refl

-- The one record is completed, and the run goes on.
dispatch_pass-never_ends_example :
    (dispatch_pass memory job
      (stop_app ∷ stop_app ∷ [])
      (detail "stop_app" completed ∷ [])
      dispatcher).0
    ≡ true
dispatch_pass-never_ends_example =
    dispatch_pass-never_ends memory job (stop_app ∷ stop_app ∷ [])
      (detail "stop_app" completed ∷ []) dispatcher two_runs_twice two_runs_few
