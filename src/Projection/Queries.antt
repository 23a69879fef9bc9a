-- ===== src/Projection/Queries.antt =====
-- internal/projection/query_service.go: reads of the read model.
use ledger_engine.Prelude.{
  ℕ, Bool, ◌||◌, ◌==◌, leb, if◌then◌else◌, str_eq, String, List, [], ◌∷◌, map,
}
use ledger_engine.Prelude.Int64.{Int64, is_negative}
use ledger_engine.Prelude.Rows.{select, take, drop, order_by}
use ledger_engine.Errors.{Result, ok, err, opaque_error, account_view_not_found}
use ledger_engine.Exec.{Exec, wrapping, continue}
use ledger_engine.Postgres.Tables.{BalanceRow, HistoryRow, Db}
use ledger_engine.Postgres.Server.{Server, call}
use ledger_engine.Projection.Views.{AccountView, TransactionHistoryEntry}

-- Scan(&v.AccountID, …)
abbrev pub scan_view : BalanceRow → AccountView
scan_view r = record {
  account_id = r.account_id;
  name = r.name;
  account_type = r.account_type;
  currency = r.currency;
  balance = r.balance;
  status = r.status;
  version = r.version;
  updated_at = r.updated_at;
}

-- Scan(&e.ID, …)
abbrev pub scan_history : HistoryRow → TransactionHistoryEntry
scan_history r = record {
  id = r.id;
  transaction_id = r.transaction_id;
  account_id = r.account_id;
  entry_type = r.entry_type;
  amount = r.amount;
  currency = r.currency;
  description = r.description;
  balance_after = r.balance_after;
  created_at = r.created_at;
}

-- WHERE account_id = $1; the row of pgx.ErrNoRows is none
unfoldable pub find_view : String → List BalanceRow → Result AccountView
find_view account [] = err account_view_not_found
find_view account (r ∷ rows) =
    if str_eq r.account_id account then ok (scan_view r) else find_view account rows

-- ORDER BY created_at DESC
abbrev pub later : HistoryRow → HistoryRow → Bool
later r r' = leb r'.created_at r.created_at

-- WHERE account_id = $1 ORDER BY created_at DESC LIMIT $2 OFFSET $3
unfoldable pub history_page : String → ℕ → ℕ → List HistoryRow → List HistoryRow
history_page account limit offset rows =
    take limit
      (drop offset (order_by later (select (λ (r : HistoryRow). str_eq r.account_id account) rows)))

-- if limit <= 0 { limit = 50 }
unfoldable pub limit_or_default : Int64 → Int64
limit_or_default limit = if limit == 0 || is_negative limit then 50 else limit

module _ (pg : Server) where
  unfoldable pub get_account_balance : String → Exec Db AccountView
  get_account_balance account db =
      continue (wrapping "query account balance" (call pg) db)
        (λ _ s. (find_view account s.tables.account_balances, s))

  -- The query, then the reading of its rows to their end.
  unfoldable pub list_accounts : Exec Db (List AccountView)
  list_accounts db = continue (wrapping "query accounts" (call pg) db) (λ _ s.
      continue (call pg s) (λ _ s'. (
        ok (
            map scan_view (
              order_by (λ (r r' : BalanceRow). pg.collation r.name r'.name)
                s.tables.account_balances)),
        s',
      )))

  -- A negative OFFSET is an error of the server.
  abbrev pub page_of : String → Int64 → Int64 → Exec Db (List TransactionHistoryEntry)
  page_of account limit offset db =
      if is_negative offset then (err (opaque_error "OFFSET must not be negative"), db) else (
        ok (map scan_history (history_page account limit offset db.tables.transaction_history)),
        db,
      )

  unfoldable pub get_transaction_history :
      String → Int64 → Int64 → Exec Db (List TransactionHistoryEntry)
  get_transaction_history account limit offset db =
      continue (wrapping "query history" (call pg) db)
        (λ _ s. continue (call pg s) (λ _ s'. page_of account (limit_or_default limit) offset s'))
