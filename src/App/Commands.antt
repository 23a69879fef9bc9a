-- ===== src/App/Commands.antt =====
-- internal/app/commands.go, and TransferCmd of internal/app/transfer_service.go.
use ledger_engine.Prelude.{String, List}
use ledger_engine.Prelude.Int64.{Int64}
use ledger_engine.Ledger.Money.{Currency}
use ledger_engine.Ledger.Identifiers.{AccountId}
use ledger_engine.Ledger.Entry.{EntryType}

pub record OpenAccountCmd : Type 0 where
  pub name : String
  pub account_type : String
  pub currency : Currency

pub record EntryCmd : Type 0 where
  pub account_id : AccountId
  pub amount : Int64
  pub currency : Currency
  pub type : EntryType

pub record RecordTransactionCmd : Type 0 where
  pub entries : List EntryCmd
  pub description : String

pub record TransferCmd : Type 0 where
  pub from_account_id : AccountId
  pub to_account_id : AccountId
  pub amount : Int64
  pub currency : Currency
  pub description : String
