-- ===== src/App/Invariants.antt =====
-- A property of the state that the ports of the services keep is one that the services keep, whatever
-- they are asked for and wherever they fail.
pub mod Services
pub mod Transfers
use ledger_engine.Prelude.{⊤, String, Option, none, some, List}
use ledger_engine.Prelude.Int64.{Int64}
use ledger_engine.Exec.{Exec}
use ledger_engine.Exec.Keeping.{Keeps}
use ledger_engine.Ledger.Identifiers.{AccountId}
use ledger_engine.Ledger.Event.{
  AccountOpenedEvent, TransactionRecordedEvent, StoredEvent, EventStore,
}
use ledger_engine.Ledger.Transaction.{Transaction}
use ledger_engine.Account.{Account}
use ledger_engine.App.Ports.{OutboxAppender, Projector, LedgerService}

module _ {S : Type 0} (P : S → Type 0) where
  -- The event store is used where there is no outbox.
  abbrev pub AppendsUphold : Option (OutboxAppender S) → Option (EventStore S) → Type 0
  AppendsUphold (some o) _ =
      (id type : String) (version : Int64) (events : List StoredEvent)
      → Keeps P (o.append_with_outbox id type version events)
  AppendsUphold none (some e) =
      (id type : String) (version : Int64) (events : List StoredEvent)
      → Keeps P (e.append id type version events)
  AppendsUphold none none = ⊤

  abbrev pub ProjectorUpholds : Option (Projector S) → Type 0
  ProjectorUpholds none = ⊤
  ProjectorUpholds (some p) =
      ((event : AccountOpenedEvent) → Keeps P (p.project_account_opened event))
      × ((event : TransactionRecordedEvent) → Keeps P (p.project_transaction_recorded event))

  pub record Upholds (svc : LedgerService S) : Type 0 where
    pub now : (s : S) → P s → P (svc.env.now s).1
    pub new_uuid : (s : S) → P s → P (svc.env.new_uuid s).1
    pub save : (a : Account) → Keeps P (svc.accounts.save a)
    pub find_by_id : (id : AccountId) → Keeps P (svc.accounts.find_by_id id)
    pub find_all : Keeps P svc.accounts.find_all
    pub save_transaction : (tx : Transaction) → Keeps P (svc.transactions.save tx)
    pub appends : AppendsUphold svc.outbox svc.event_store
    pub projector : ProjectorUpholds svc.projector
