-- ===== src/Ledger.antt =====
-- internal/domain/ledger: the domain primitives, the transaction aggregate and its events.
pub mod Money
pub mod Identifiers
pub mod Entry
pub mod Transaction
pub mod Event
