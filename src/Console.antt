-- ===== src/Console.antt =====
-- src/console: the store-write pause and the console's commands.
pub mod IngestControl
pub mod PauseGate
pub mod Commands
pub mod Migration
pub mod Swap
pub mod Audit
pub mod Spool
pub mod Park
