-- ===== src/Lib.antt =====
-- The failover orchestrator: a state machine whose transitions run tasks that depend on one
-- another, with its state and the records of its executions in etcd.
--
-- An event goes to the state machine (_archive/fsm/fsm.go), which finds the next state in the
-- configuration's table, stores it, creates the records of a new execution in the store and
-- hands the tasks of the state that it leaves to the task runner
-- (_archive/taskrunner/runner.go). The runner checks the dependencies, then a dispatcher scans
-- the records in etcd and puts the tasks that can run on a channel, from which workers take
-- them, run their plugins and update the records. When every record is final the runner closes
-- the execution's header, and the machine sends itself the event of a success or of a failure.
-- An execution that failed can be restarted (_archive/service/service.go), and a leader among
-- the nodes watches the cluster's health (internal/cluster/monitor.go).
--
-- - Value: Go's dynamic values. Config: the structures of internal/config/config.go. Errors:
--   Go's errors, one constructor for each place that makes one, and actions that change a state
--   and may fail.
-- - Etcd: the client of etcd as an interface, with the documented behaviour of its calls as
--   laws (IsEtcd): a call that fails may have been made or not. Etcd/Memory is a client in
--   memory with a schedule of outages, which meets the laws.
-- - Store: _archive/store. Keys has the keys (fsmStateKey and so on), Models the records and
--   the documents, Operations the methods, each as a sequence of client calls. A document
--   stands for the JSON text that json.Marshal makes, and the ids, counters and states are
--   texts; Decimal prints and reads the counter on 64-bit numbers.
-- - Runner/Cycle: detectDependencyCycle and findCycleDFS, with the visitation map and the
--   recursion stack passed along. The recursion takes fuel, the number of tasks and one more,
--   which is enough because every call marks another task.
-- - Runner/Scan: scanAndDispatch, one pass of the dispatcher. Runner/Secrets and Runner/Worker:
--   what a worker does with one task. Runner/Execute: ExecuteActions, where the effect of the
--   dispatcher and the workers on the cluster is an argument. Runner/Conditions:
--   _archive/taskrunner/conditions.go.
-- - Runner/Plugins: executePluginTask. Runner/Moves and Runner/Pool: the dispatcher, the
--   workers and the part of ExecuteActions around them as a step relation: the states of the
--   two channels, of the dispatcher and of each worker, and the cancellation.
--   Runner/Pool/Passes ties it to Runner/Scan, Runner/Pool/Whole to Runner/Execute.
-- - Machine: NewMachine and handleEvent of _archive/fsm/fsm.go. A panic is a value.
--   Machine/Runs has Run as a relation: the events on the channel are handled in any order. The
--   channel of events, which has room for ten, is a list without a bound.
-- - Adaptors/CfPlugin: adaptors/cfplugin/main.go, the plugin that starts and stops an
--   application: its validation, its login, its retries and its cache of tokens, over net/http
--   as an interface. Crypto: internal/crypto/aes.go, where the cipher of a key is an argument.
-- - Adaptors/Hana: adaptors/hana-adaptor/main.go, the plugin that creates and deletes remote
--   subscriptions; the statements that it executes are kept in order, and the driver's
--   transactions have laws. Adaptors/Route53: adaptors/dns-adaptor-route53/main.go, over the
--   client of AWS.
-- - EtcdNode: internal/etcd/etcd.go, the start of a node that joins a cluster or founds one;
--   the disk, the TLS files, the client and the server are an interface, with laws for the
--   calls on members. McpServer: mcp-server/main.go, the tasks of the agents as a key-value
--   store behind HTTP. ConfigSync: _archive/config-sync-service/main.go, the webhook that
--   clones and applies a configuration, with laws of the disk. Handlers: the endpoints of
--   _archive/handlers/handlers.go and of internal/handlers, from a request to the call that it
--   starts. Secrets: internal/secrets. Telemetry: internal/telemetry, where strings.ToLower is
--   an argument. Orchestrator: the job that main.go creates.
-- - Service: bootstrapFSMConfig and RestartFSM. Cluster: the health checks of the leader.
--
-- Every order in which Go may range over a map is a list of its own, so what holds for all
-- lists of entries holds for all orders. The clock, the file, yaml.Unmarshal, the plugins, the
-- decryption, govaluate and text/template are arguments. An update that `go` starts is recorded
-- as spawned; Runner/Pool runs it as a step. Logging is left out.
--
-- Not modelled: the wait group beyond the workers' own ends, the election of a leader (etcd's),
-- the adaptor for tests by hand, pauses and logs, and the programs that wire these up. A worker
-- whose crypto service cannot be set up, which returns at once, is not among the pool's
-- workers.
mod Prelude
pub mod Value
pub mod Config
pub mod ConfigSync
pub mod Errors
pub mod Etcd
pub mod EtcdNode
pub mod Store
pub mod Telemetry
pub mod Runner
pub mod Handlers
pub mod Machine
pub mod Orchestrator
pub mod McpServer
pub mod Secrets
pub mod Service
pub mod Cluster
pub mod Adaptors
pub mod Crypto
mod Tests
