-- ===== src/Tests/Service.antt =====
-- The restart, the bootstrap and the health checks over a cluster in memory.
use mrmfactorytest.Prelude.{
  String, Option, none, some, List, [], ◌∷◌, map, lookup, values, true, false, ◌≡◌, ◌≢◌, ◌⊎◌, refl,
}
use mrmfactorytest.Config.{Config}
use mrmfactorytest.Errors.{Result, ok}
use mrmfactorytest.Etcd.Laws.{OthersKept}
use mrmfactorytest.Etcd.Memory.{Memory, memory, memory-IsEtcd}
use mrmfactorytest.Store.Models.{completed, ExecutionHeader, header_json, details_json}
use mrmfactorytest.Store.Keys.{execution_header_key, execution_details_key, fsm_config_key}
use mrmfactorytest.Store.Details.{Holds, Unchanged}
use mrmfactorytest.Service.{reset_detail, bootstrap_fsm_config, restart_fsm, already_completed}
use mrmfactorytest.Service.Bootstrap.{Bootstrapped, bootstrap_fsm_config-Bootstrapped}
use mrmfactorytest.Service.Reset.{store_all, reset_entry, lookup-reset}
use mrmfactorytest.Service.Resumption.{Stopped, Recorded, restart_fsm-completed}
use mrmfactorytest.Cluster.{Member, check_cluster_health}
use mrmfactorytest.Cluster.Alarms.{check_cluster_health-once}
use mrmfactorytest.Tests.Data.{job, half_done_map, started_header, up, failover}
use mrmfactorytest.Tests.Store.{half_done_map-Keyed}

abbrev unmarshal : String → Option Config
unmarshal yaml = some failover

abbrev read_file : String → Result String
read_file path = ok "fsm:"

bootstrap_fsm_config-Bootstrapped_example :
    let r = bootstrap_fsm_config unmarshal read_file memory job "fsm-config.yaml" up in
    Bootstrapped unmarshal memory memory-IsEtcd job read_file "fsm-config.yaml" up r
    × OthersKept memory (fsm_config_key job) up r.1
    × (memory.content up (fsm_config_key job) ≢ none → Unchanged memory up r.1)
bootstrap_fsm_config-Bootstrapped_example =
    bootstrap_fsm_config-Bootstrapped unmarshal memory memory-IsEtcd job read_file "fsm-config.yaml"
      up

stop_app_reset :
    lookup "stop_app" (store_all (map reset_detail (values half_done_map)) half_done_map)
    ≡ reset_entry (lookup "stop_app" half_done_map)
unfolding lookup
stop_app_reset =
    lookup-reset "stop_app" half_done_map half_done_map-Keyed (refl, (refl, (refl, tt)))

abbrev closed_header : ExecutionHeader
closed_header = record started_header { status = completed }

abbrev closed : Memory
closed = record {
  table =
      ("mrm/scenario/S001/execution/e1/details", details_json half_done_map)
      ∷ ("mrm/scenario/S001/execution/e1/header", header_json closed_header)
      ∷ [];
  outages = [];
}

closed-header : memory.content closed (execution_header_key job) ≡ some (header_json closed_header)
unfolding lookup execution_header_key
closed-header = refl

closed-Holds : Holds memory job closed half_done_map
unfolding lookup execution_details_key
closed-Holds = refl

restart_fsm-completed_example :
    let r = restart_fsm unmarshal read_file memory job (λ spawned s. s) 400 410 closed in
    Recorded unmarshal read_file memory memory-IsEtcd job
      (λ spawned s. s)
      400
      410
      closed_header
      half_done_map
      r.server
      closed_header
      half_done_map
    × (r.spawned ≡ [])
    × ((r.ending ≡ already_completed) ⊎ Stopped r.ending)
restart_fsm-completed_example =
    restart_fsm-completed unmarshal read_file memory memory-IsEtcd job (λ spawned s. s) 400 410
      closed_header half_done_map closed closed-header closed-Holds refl

abbrev nodes : List Member
nodes =
    record { id = 1; client_urls = "http://a:2379" ∷ [] }
    ∷ record { id = 2; client_urls = "http://b:2379" ∷ [] }
    ∷ record { id = 3; client_urls = [] }
    ∷ []

second_check_quiet :
    ((check_cluster_health
        (record { members = some nodes; answers = λ url. true })
        (check_cluster_health
          (record { members = some nodes; answers = λ url. true })
          (4 ∷ [])).1).0
      ≡ false)
    ⊎ (some nodes ≡ none)
second_check_quiet =
    check_cluster_health-once (record { members = some nodes; answers = λ url. true }) (4 ∷ [])
