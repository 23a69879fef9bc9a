-- ===== src/Projection/Views.antt =====
-- internal/projection/read_models.go: what the queries return.
use ledger_engine.Prelude.{ℕ, String}
use ledger_engine.Prelude.Int64.{Int64}
use ledger_engine.Environment.{Time}

pub record AccountView : Type 0 where
  pub account_id : String
  pub name : String
  pub account_type : String
  pub currency : String
  pub balance : Int64
  pub status : String
  pub version : Int64
  pub updated_at : Time

pub record TransactionHistoryEntry : Type 0 where
  pub id : ℕ
  pub transaction_id : String
  pub account_id : String
  pub entry_type : String
  pub amount : Int64
  pub currency : String
  pub description : String
  pub balance_after : Int64
  pub created_at : Time
