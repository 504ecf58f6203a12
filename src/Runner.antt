-- ===== src/Runner.antt =====
-- _archive/taskrunner: the task execution engine.
pub mod Cycle
pub mod Scan
pub mod Execute
pub mod Secrets
pub mod Worker
pub mod Plugins
pub mod Moves
pub mod Pool
pub mod Conditions
