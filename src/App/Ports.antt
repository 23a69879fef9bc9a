-- ===== src/App/Ports.antt =====
-- The interfaces that the services are given: account.Repository
-- (internal/domain/account/repository.go), ledger.TransactionRepository
-- (internal/domain/ledger/repository.go), OutboxAppender and Projector
-- (internal/app/ledger_service.go). `S` is the state of the world that they read and change.
use ledger_engine.Prelude.{⊤, String, Option, List}
use ledger_engine.Prelude.Int64.{Int64}
use ledger_engine.Environment.{Env, UuidLib}
use ledger_engine.Errors.{Result}
use ledger_engine.Exec.{Exec}
use ledger_engine.Ledger.Identifiers.{AccountId, TransactionId}
use ledger_engine.Ledger.Transaction.{Transaction}
use ledger_engine.Ledger.Event.{
  AccountOpenedEvent, TransactionRecordedEvent, DomainEvent, StoredEvent, EventStore, Payload,
}
use ledger_engine.Account.{Account}

module _ (S : Type 0) where
  pub record AccountRepository : Type 0 where
    pub save : Account → Exec S ⊤
    pub find_by_id : AccountId → Exec S Account
    pub find_all : Exec S (List Account)

  pub record TransactionRepository : Type 0 where
    pub save : Transaction → Exec S ⊤
    pub find_by_id : TransactionId → Exec S Transaction
    pub find_by_account_id : AccountId → Exec S (List Transaction)

  pub record OutboxAppender : Type 0 where
    pub append_with_outbox : String → String → Int64 → List StoredEvent → Exec S ⊤

  pub record Projector : Type 0 where
    pub project_account_opened : AccountOpenedEvent → Exec S ⊤
    pub project_transaction_recorded : TransactionRecordedEvent → Exec S ⊤

  -- The fields of LedgerService, of which the last three may be nil, with the libraries that its
  -- methods call: the clock and UUIDs, and `json.Marshal`.
  pub record LedgerService : Type 0 where
    pub accounts : AccountRepository
    pub transactions : TransactionRepository
    pub event_store : Option (EventStore S)
    pub outbox : Option OutboxAppender
    pub projector : Option Projector
    pub env : Env S
    pub uuid : UuidLib
    pub marshal : DomainEvent → Result Payload
