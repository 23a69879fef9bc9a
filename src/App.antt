-- ===== src/App.antt =====
-- internal/app: the application services, over the ports that the domain packages declare.
pub mod Ports
pub mod Contract
pub mod Invariants
pub mod Commands
pub mod Service
pub mod Transfers
pub mod OutboxWorker
