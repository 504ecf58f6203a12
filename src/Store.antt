-- ===== src/Store.antt =====
-- _archive/store: the execution records of a scenario in etcd.
pub mod Models
pub mod Decimal
pub mod Keys
pub mod Operations
pub mod Records
pub mod Details
pub mod Execution
