-- ===== src/Http/Handlers/Keeping.antt =====
-- A property of the state that the services keep is one that every route keeps.
use ledger_engine.Prelude.{ℕ, ◌||◌, ◌==◌, inl, inr, Bool-cases, String, Option, none, some, List}
use ledger_engine.Prelude.Int64.{Int64, is_negative}
use ledger_engine.Errors.{Result, ok, err}
use ledger_engine.Exec.Keeping.{Keeps}
use ledger_engine.Ledger.Identifiers.{AccountId, new_account_id}
use ledger_engine.App.Commands.{EntryCmd}
use ledger_engine.App.Ports.{LedgerService}
use ledger_engine.App.Transfers.{Answer, execute}
use ledger_engine.App.Invariants.{Upholds}
use ledger_engine.App.Invariants.Services.{
  open_account-Keeps, record_transaction-Keeps, deposit-Keeps,
}
use ledger_engine.App.Invariants.Transfers.{execute-Keeps}
use ledger_engine.App.Service.Accounts.{open_account}
use ledger_engine.App.Service.Recording.{record_transaction, deposit}
use ledger_engine.Http.{Bytes, Request, Response, Handler}
use ledger_engine.Http.Handlers.Json.{
  OpenAccountRequest, RecordTransactionRequest, DepositRequest, TransferRequest, Codec,
}
use ledger_engine.Http.Handlers.{
  QueryService, entry_cmds, unprocessable_or, answered_or, open_decoded, record_cmds,
  record_decoded, deposit_to, deposit_decoded, transferred, transfer_between, transfer_decoded,
  handle_open_account, handle_record_transaction, handle_deposit, handle_transfer,
  handle_get_balance, handle_list_accounts, handle_get_transaction_history,
}
use ledger_engine.Http.Handlers.Rejecting.{
  Route, list_route, open_route, balance_route, history_route, record_route, deposit_route,
  transfer_route, handle,
}

-- The state that a handler leaves, whether it answers or panics.
abbrev pub Serves : {S : Type 0} → (S → Type 0) → Handler S → Type 0
Serves {S} P next = (r : Request) (s : S) → P s → P (next r s).1

pub record Queries {S : Type 0} (P : S → Type 0) (queries : QueryService S) : Type 0 where
  pub get_account_balance : (id : String) → Keeps P (queries.get_account_balance id)
  pub list_accounts : Keeps P queries.list_accounts
  pub get_transaction_history :
      (id : String) (limit offset : Int64)
      → Keeps P (queries.get_transaction_history id limit offset)

module _ {S : Type 0} (codec : Codec) {svc : LedgerService S} {queries : QueryService S}
    {P : S → Type 0} (keeps : Upholds P svc) (reads : Queries P queries) where
  unprocessable_or-Keeps :
      {A : Type 0} (done : A → Response) (r : Result A × S)
      → P r.1
      → P (unprocessable_or codec svc queries done r).1
  unprocessable_or-Keeps done (ok a, s) h = h
  unprocessable_or-Keeps done (err e, s) h = h

  answered_or-Keeps :
      {A : Type 0} (failure : ℕ) (encode : A → Bytes) (r : Result A × S)
      → P r.1
      → P (answered_or codec svc queries failure encode r).1
  answered_or-Keeps failure encode (ok a, s) h = h
  answered_or-Keeps failure encode (err e, s) h = h

  transferred-Keeps : (a : Answer S) → P a.2 → P (transferred codec svc queries a).1
  transferred-Keeps (some saga, none, s) h = h
  transferred-Keeps (none, none, s) h = h
  transferred-Keeps (some saga, some e, s) h = h
  transferred-Keeps (none, some e, s) h = h

  open_decoded-Keeps :
      (d : Option OpenAccountRequest) (s : S) → P s → P (open_decoded codec svc queries d s).1
  open_decoded-Keeps none s h = h
  open_decoded-Keeps (some req) s h =
      unprocessable_or-Keeps _ (open_account svc _ s) (open_account-Keeps keeps _ s h)

  record_cmds-Keeps :
      (description : String) (o : Option (List EntryCmd)) (s : S)
      → P s
      → P (record_cmds codec svc queries description o s).1
  record_cmds-Keeps description none s h = h
  record_cmds-Keeps description (some es) s h =
      unprocessable_or-Keeps _ (record_transaction svc _ s) (record_transaction-Keeps keeps _ s h)

  record_decoded-Keeps :
      (d : Option RecordTransactionRequest) (s : S)
      → P s
      → P (record_decoded codec svc queries d s).1
  record_decoded-Keeps none s h = h
  record_decoded-Keeps (some req) s h =
      record_cmds-Keeps req.description (entry_cmds svc.uuid req.entries) s h

  deposit_to-Keeps :
      (req : DepositRequest codec.Float) (r : Result AccountId) (s : S)
      → P s
      → P (deposit_to codec svc queries req r s).1
  deposit_to-Keeps req (err _) s h = h
  deposit_to-Keeps req (ok id) s h =
      elim (Bool-cases (codec.cents req.amount == 0 || is_negative (codec.cents req.amount))) [
        | inl refused ↦ rw refused h
        | inr accepted ↦
            rw accepted
              (unprocessable_or-Keeps _ (deposit svc id _ _ _ s) (deposit-Keeps keeps id _ _ _ s h))
      ]

  deposit_decoded-Keeps :
      (d : Option (DepositRequest codec.Float)) (s : S)
      → P s
      → P (deposit_decoded codec svc queries d s).1
  deposit_decoded-Keeps none s h = h
  deposit_decoded-Keeps (some req) s h =
      deposit_to-Keeps req (new_account_id svc.uuid req.account_id) s h

  transfer_between-Keeps :
      (req : TransferRequest codec.Float) (source target : Result AccountId) (s : S)
      → P s
      → P (transfer_between codec svc queries req source target s).1
  transfer_between-Keeps req (err _) target s h = h
  transfer_between-Keeps req (ok i) (err _) s h = h
  transfer_between-Keeps req (ok i) (ok j) s h =
      transferred-Keeps (execute svc _ s) (execute-Keeps keeps _ s h)

  transfer_decoded-Keeps :
      (d : Option (TransferRequest codec.Float)) (s : S)
      → P s
      → P (transfer_decoded codec svc queries d s).1
  transfer_decoded-Keeps none s h = h
  transfer_decoded-Keeps (some req) s h =
      transfer_between-Keeps req (new_account_id svc.uuid req.from_account_id)
        (new_account_id svc.uuid req.to_account_id) s h

  pub handle-Serves : (route : Route) → Serves P (handle codec svc queries route)
  unfolding handle_open_account handle_record_transaction handle_deposit handle_transfer
      handle_get_balance handle_list_accounts handle_get_transaction_history
  handle-Serves list_route r s h =
      answered_or-Keeps 500 codec.encode_views (queries.list_accounts s) (reads.list_accounts s h)
  handle-Serves balance_route r s h =
      answered_or-Keeps 404 codec.encode_view (queries.get_account_balance r.account_id s)
        (reads.get_account_balance r.account_id s h)
  handle-Serves history_route r s h =
      answered_or-Keeps 500 codec.encode_history
        (queries.get_transaction_history r.account_id 100 0 s)
        (reads.get_transaction_history r.account_id 100 0 s h)
  handle-Serves open_route r s h = open_decoded-Keeps (codec.decode_open_account r.body) s h
  handle-Serves record_route r s h = record_decoded-Keeps (codec.decode_transaction r.body) s h
  handle-Serves deposit_route r s h = deposit_decoded-Keeps (codec.decode_deposit r.body) s h
  handle-Serves transfer_route r s h = transfer_decoded-Keeps (codec.decode_transfer r.body) s h
