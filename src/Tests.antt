-- ===== src/Tests.antt =====
-- The theorems at concrete inputs.
mod Data
mod Runner
mod Store
mod Engine
mod Service
mod Adaptors
mod Hana
mod Handlers
mod ConfigSync
mod Route53
mod McpServer
mod EtcdNode
mod Telemetry
mod Pool
mod Rescan
mod Runs
