-- ===== src/Postgres/Tables.antt =====
-- The tables of the files in migrations, a row a record and a table the list of its rows in the
-- order in which they were inserted. A BIGSERIAL column is a number that a sequence hands out.
use ledger_engine.Prelude.{ℕ, Bool, String, Option, List, []}
use ledger_engine.Prelude.Int64.{Int64}
use ledger_engine.Environment.{Time}
use ledger_engine.Ledger.Event.{Payload}

pub record EventRow : Type 0 where
  pub id : ℕ
  pub aggregate_id : String
  pub aggregate_type : String
  pub event_type : String
  pub version : Int64
  pub payload : Payload
  pub occurred_at : Time

pub record OutboxRow : Type 0 where
  pub id : ℕ
  pub aggregate_id : String
  pub aggregate_type : String
  pub event_type : String
  pub payload : Payload
  pub published : Bool
  pub created_at : Time
  pub published_at : Option Time

pub record SnapshotRow : Type 0 where
  pub aggregate_id : String
  pub version : Int64
  pub payload : Payload
  pub created_at : Time

pub record AccountRow : Type 0 where
  pub account_id : String
  pub name : String
  pub account_type : String
  pub currency : String
  pub balance : Int64
  pub status : String
  pub created_at : Time
  pub updated_at : Time

pub record BalanceRow : Type 0 where
  pub account_id : String
  pub name : String
  pub account_type : String
  pub currency : String
  pub balance : Int64
  pub status : String
  pub version : Int64
  pub updated_at : Time

pub record HistoryRow : Type 0 where
  pub id : ℕ
  pub transaction_id : String
  pub account_id : String
  pub entry_type : String
  pub amount : Int64
  pub currency : String
  pub description : String
  pub balance_after : Int64
  pub created_at : Time

pub record Tables : Type 0 where
  pub events : List EventRow
  pub snapshots : List SnapshotRow
  pub account_balances : List BalanceRow
  pub transaction_history : List HistoryRow
  pub accounts : List AccountRow
  pub outbox : List OutboxRow

-- The tables, the sequences of their ids, which no rollback takes back, and how many calls the
-- server has been sent.
pub record Db : Type 0 where
  pub tables : Tables
  pub next_event : ℕ
  pub next_outbox : ℕ
  pub next_history : ℕ
  pub calls : ℕ

abbrev pub empty : Db
empty = record {
  tables = record {
    events = [];
    snapshots = [];
    account_balances = [];
    transaction_history = [];
    accounts = [];
    outbox = [];
  };
  next_event = 1;
  next_outbox = 1;
  next_history = 1;
  calls = 0;
}
