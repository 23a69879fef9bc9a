-- ===== src/Http/Handlers.antt =====
-- internal/infra/http/handlers.go. A handler that panics, which the router's Recoverer answers, has
-- no response. Its body is decoded, and its response encoded, by encoding/json: a parameter, as is
-- the product of a float64.
pub mod Json
pub mod Rejecting
pub mod Keeping
pub mod Transferring
use ledger_engine.Prelude.{
  ⊤, ℕ, Bool, ◌||◌, ◌==◌, if◌then◌else◌, str_eq, String, Option, none, some, List, [], ◌∷◌,
}
use ledger_engine.Prelude.Int64.{Int64, is_negative}
use ledger_engine.Environment.{UuidLib}
use ledger_engine.Errors.{Error, Result, ok, err, message}
use ledger_engine.Exec.{Exec}
use ledger_engine.Ledger.Money.{Currency}
use ledger_engine.Ledger.Identifiers.{
  AccountId, new_account_id, account_id_string, transaction_id_string,
}
use ledger_engine.Ledger.Entry.{entry_type}
use ledger_engine.Ledger.Transaction.{Transaction}
use ledger_engine.Account.{Account, account_type_string, status_string}
use ledger_engine.Transfer.{Transfer, saga_state_string}
use ledger_engine.App.Commands.{EntryCmd}
use ledger_engine.App.Ports.{LedgerService}
use ledger_engine.App.Service.Accounts.{open_account}
use ledger_engine.App.Service.Recording.{record_transaction, deposit}
use ledger_engine.App.Transfers.{Answer, execute}
use ledger_engine.Projection.Views.{AccountView, TransactionHistoryEntry}
use ledger_engine.Http.{Bytes, Request, Response, write_json}
use ledger_engine.Http.Handlers.Json.{
  OpenAccountRequest, EntryRequest, RecordTransactionRequest, DepositRequest, TransferRequest,
  Value, text, integer, trail, Codec,
}

-- The methods of *projection.PostgresQueryService.
pub record QueryService (S : Type 0) : Type 0 where
  pub get_account_balance : String → Exec S AccountView
  pub list_accounts : Exec S (List AccountView)
  pub get_transaction_history : String → Int64 → Int64 → Exec S (List TransactionHistoryEntry)

-- if desc == "" { desc = … }, and the same for a currency
abbrev pub or_default : String → String → String
or_default s default = if str_eq s "" then default else s

-- ledger.USD
abbrev pub usd : Currency
usd = "USD"

-- accID, err := ledger.NewAccountID(e.AccountID), for each entry up to the first error
abbrev with_id : Result AccountId → EntryRequest → Option (List EntryCmd) → Option (List EntryCmd)
with_id (err _) e rest = none
with_id (ok id) e none = none
with_id (ok id) e (some rest) = some (
    record { account_id = id; amount = e.amount; currency = e.currency; type = entry_type e.type }
    ∷ rest)

unfoldable pub entry_cmds : UuidLib → List EntryRequest → Option (List EntryCmd)
entry_cmds u [] = some []
entry_cmds u (e ∷ es) = with_id (new_account_id u e.account_id) e (entry_cmds u es)

module _ {S : Type 0} (codec : Codec) (svc : LedgerService S) (queries : QueryService S) where
  open svc use {uuid}
  open codec use {object}

  abbrev pub Handled : Type 0
  Handled = Option Response × S

  -- writeJSON(w, status, errorResponse{Error: message})
  abbrev pub error_response : ℕ → String → Response
  error_response status reason = write_json status (object (("error", text reason) ∷ []))

  -- writeJSON(w, http.StatusBadRequest, …); return
  abbrev bad_request : String → S → Handled
  bad_request reason s = (some (error_response 400 reason), s)

  -- if err != nil { writeJSON(w, http.StatusUnprocessableEntity, …); return }, or the response
  abbrev unprocessable_or : {A : Type 0} → (A → Response) → Result A × S → Handled
  unprocessable_or done (ok a, s) = (some (done a), s)
  unprocessable_or done (err e, s) = (some (error_response 422 (message e)), s)

  abbrev opened : Account → Response
  opened acc = write_json 201 (
      object (
        ("account_id", text (account_id_string uuid acc.id))
        ∷ ("name", text acc.name)
        ∷ ("account_type", text (account_type_string acc.type))
        ∷ ("currency", text acc.currency)
        ∷ ("balance", integer acc.balance.amount)
        ∷ ("status", text (status_string acc.status))
        ∷ []))

  abbrev open_decoded : Option OpenAccountRequest → S → Handled
  open_decoded none s = bad_request "invalid request body" s
  open_decoded (some req) s = unprocessable_or opened (
      open_account svc
        (record { name = req.name; account_type = req.account_type; currency = req.currency }) s)

  unfoldable pub handle_open_account : Request → S → Handled
  handle_open_account r s = open_decoded (codec.decode_open_account r.body) s

  abbrev recorded : Transaction → Response
  recorded tx = write_json 201 (
      object (
        ("transaction_id", text (transaction_id_string uuid tx.id))
        ∷ ("description", text tx.description)
        ∷ []))

  abbrev record_cmds : String → Option (List EntryCmd) → S → Handled
  record_cmds description none s = bad_request "invalid account_id in entry" s
  record_cmds description (some entries) s =
      unprocessable_or recorded
        (record_transaction svc (record { entries = entries; description = description }) s)

  abbrev record_decoded : Option RecordTransactionRequest → S → Handled
  record_decoded none s = bad_request "invalid request body" s
  record_decoded (some req) s = record_cmds req.description (entry_cmds uuid req.entries) s

  unfoldable pub handle_record_transaction : Request → S → Handled
  handle_record_transaction r s = record_decoded (codec.decode_transaction r.body) s

  abbrev deposited : ⊤ → Response
  deposited _ = write_json 200 (object (("status", text "deposited") ∷ []))

  abbrev deposit_to : DepositRequest codec.Float → Result AccountId → S → Handled
  deposit_to req (err _) s = bad_request "invalid account_id" s
  deposit_to req (ok id) s =
      let cents = codec.cents req.amount in
      if cents == 0 || is_negative cents
      then bad_request "amount must be positive" s
      else unprocessable_or deposited (
          deposit svc id cents (or_default req.currency usd) (or_default req.description "Deposit")
            s)

  abbrev deposit_decoded : Option (DepositRequest codec.Float) → S → Handled
  deposit_decoded none s = bad_request "invalid request body" s
  deposit_decoded (some req) s = deposit_to req (new_account_id uuid req.account_id) s

  unfoldable pub handle_deposit : Request → S → Handled
  handle_deposit r s = deposit_decoded (codec.decode_deposit r.body) s

  abbrev saga_fields : Transfer → List (String × Value)
  saga_fields saga =
      ("transfer_id", text saga.id)
      ∷ ("state", text (saga_state_string saga.state))
      ∷ ("steps", trail saga.steps)
      ∷ []

  -- The methods of a nil saga panic.
  abbrev transferred : Answer S → Handled
  transferred (some saga, none, s) = (some (write_json 201 (object (saga_fields saga))), s)
  transferred (none, none, s) = (none, s)
  transferred (some saga, some e, s) =
      (some (write_json 422 (object (("error", text (message e)) ∷ saga_fields saga))), s)
  transferred (none, some e, s) = (none, s)

  abbrev transfer_between :
      TransferRequest codec.Float → Result AccountId → Result AccountId → S → Handled
  transfer_between req (err _) to s = bad_request "invalid from_account_id" s
  transfer_between req (ok from) (err _) s = bad_request "invalid to_account_id" s
  transfer_between req (ok from) (ok to) s = transferred (
      execute svc
        (record {
          from_account_id = from;
          to_account_id = to;
          amount = codec.cents req.amount;
          currency = or_default req.currency usd;
          description = or_default req.description "Transfer";
        })
        s)

  abbrev transfer_decoded : Option (TransferRequest codec.Float) → S → Handled
  transfer_decoded none s = bad_request "invalid request body" s
  transfer_decoded (some req) s =
      transfer_between req (new_account_id uuid req.from_account_id)
        (new_account_id uuid req.to_account_id) s

  unfoldable pub handle_transfer : Request → S → Handled
  handle_transfer r s = transfer_decoded (codec.decode_transfer r.body) s

  abbrev answered_or : {A : Type 0} → ℕ → (A → Bytes) → Result A × S → Handled
  answered_or failure encode (ok a, s) = (some (write_json 200 (encode a)), s)
  answered_or failure encode (err e, s) = (some (error_response failure (message e)), s)

  unfoldable pub handle_get_balance : Request → S → Handled
  handle_get_balance r s =
      answered_or 404 codec.encode_view (queries.get_account_balance r.account_id s)

  -- A nil slice is made an empty one.
  unfoldable pub handle_list_accounts : Request → S → Handled
  handle_list_accounts r s = answered_or 500 codec.encode_views (queries.list_accounts s)

  unfoldable pub handle_get_transaction_history : Request → S → Handled
  handle_get_transaction_history r s =
      answered_or 500 codec.encode_history (queries.get_transaction_history r.account_id 100 0 s)
