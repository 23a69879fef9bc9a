-- ===== src/App/Service.antt =====
-- internal/app/ledger_service.go: the command handlers.
pub mod Params
pub mod Accounts
pub mod Recording
pub mod Opening
pub mod Lookup
pub mod Depositing
