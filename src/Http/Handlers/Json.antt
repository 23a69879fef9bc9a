-- ===== src/Http/Handlers/Json.antt =====
-- The requests of internal/infra/http/handlers.go, and what encoding/json does.
use ledger_engine.Prelude.{String, Option, List}
use ledger_engine.Prelude.Int64.{Int64}
use ledger_engine.Transfer.{SagaStep}
use ledger_engine.Projection.Views.{AccountView, TransactionHistoryEntry}
use ledger_engine.Http.{Bytes}

pub record OpenAccountRequest : Type 0 where
  pub name : String
  pub account_type : String
  pub currency : String

pub record EntryRequest : Type 0 where
  pub account_id : String
  pub amount : Int64
  pub currency : String
  pub type : String

pub record RecordTransactionRequest : Type 0 where
  pub entries : List EntryRequest
  pub description : String

pub record DepositRequest (Float : Type 0) : Type 0 where
  pub account_id : String
  pub amount : Float
  pub currency : String
  pub description : String

pub record TransferRequest (Float : Type 0) : Type 0 where
  pub from_account_id : String
  pub to_account_id : String
  pub amount : Float
  pub currency : String
  pub description : String

-- The values of a map[string]any.
pub data Value : Type 0 where
  text : String → Value
  integer : Int64 → Value
  trail : List SagaStep → Value

-- `cents f` is int64(f * 100), and none a body that Decode refuses.
pub record Codec : Type 1 where
  pub Float : Type 0
  pub cents : Float → Int64
  pub decode_open_account : Bytes → Option OpenAccountRequest
  pub decode_transaction : Bytes → Option RecordTransactionRequest
  pub decode_deposit : Bytes → Option (DepositRequest Float)
  pub decode_transfer : Bytes → Option (TransferRequest Float)
  pub object : List (String × Value) → Bytes
  pub encode_view : AccountView → Bytes
  pub encode_views : List AccountView → Bytes
  pub encode_history : List TransactionHistoryEntry → Bytes
