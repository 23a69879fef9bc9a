-- ===== src/Projection.antt =====
-- internal/projection: the read model, which projections of events fill and queries read.
pub mod Views
pub mod Posting
pub mod Following
pub mod Queries
use ledger_engine.Prelude.{
  ⊤, ℕ, ◌+◌, ◌^◌, Bool, ◌&&◌, leb, ltb, if◌then◌else◌, str_eq, String, ◌<>◌, Option, none, some,
  List, [], ◌∷◌, ◌++◌,
}
use ledger_engine.Prelude.Int64.{Int64, add64, neg64, rank64}
use ledger_engine.Environment.{Time}
use ledger_engine.Errors.{Error, Result, ok, err, opaque_error}
use ledger_engine.Exec.{Exec, pure, wrapping, continue, ◌>>=◌, ◌>>◌}
use ledger_engine.Ledger.Event.{AccountOpenedEvent, EntryEventData, TransactionRecordedEvent}
use ledger_engine.App.Ports.{Projector}
use ledger_engine.Postgres.Tables.{BalanceRow, HistoryRow, Tables, Db}
use ledger_engine.Postgres.Server.{Server, call, transaction}

-- The sum of two BIGINT values, which PostgreSQL refuses to wrap.
unfoldable pub bigint_add : Int64 → Int64 → Option Int64
bigint_add a b =
    if leb (2 ^ 63) (rank64 a + rank64 b) && ltb (rank64 a + rank64 b) (2 ^ 64 + 2 ^ 63)
    then some (add64 a b)
    else none

abbrev with_balances : List BalanceRow → Db → Db
with_balances rows db = record db { tables = record db.tables { account_balances = rows } }

-- ON CONFLICT (account_id) DO NOTHING
unfoldable pub insert_new : BalanceRow → List BalanceRow → List BalanceRow
insert_new row [] = row ∷ []
insert_new row (r ∷ rows) =
    if str_eq r.account_id row.account_id then r ∷ rows else r ∷ insert_new row rows

abbrev moved_row : Time → BalanceRow → Option Int64 → Option Int64 → Option BalanceRow
moved_row stamp r (some balance) (some version) =
    some (record r { balance = balance; version = version; updated_at = stamp })
moved_row stamp r _ _ = none

abbrev both_rows : Option BalanceRow → Option (List BalanceRow) → Option (List BalanceRow)
both_rows (some r) (some rows) = some (r ∷ rows)
both_rows _ _ = none

-- SET balance = balance + $1, version = version + 1, updated_at = $2 WHERE account_id = $3; none is
-- a sum out of range
unfoldable pub update_all : Time → Int64 → String → List BalanceRow → Option (List BalanceRow)
update_all stamp delta account [] = some []
update_all stamp delta account (r ∷ rows) =
    both_rows
      (if str_eq r.account_id account
        then moved_row stamp r (bigint_add r.balance delta) (bigint_add r.version 1)
        else some r)
      (update_all stamp delta account rows)

-- SELECT balance FROM account_balances WHERE account_id = $1
unfoldable pub balance_at : String → List BalanceRow → Option Int64
balance_at account [] = none
balance_at account (r ∷ rows) =
    if str_eq r.account_id account then some r.balance else balance_at account rows

unfoldable pub delta : EntryEventData → Int64
delta e = if str_eq e.type "CREDIT" then e.amount else neg64 e.amount

abbrev pub updated : Option (List BalanceRow) → Exec Db ⊤
updated none db = (err (opaque_error "bigint out of range"), db)
updated (some rows) db = (ok tt, with_balances rows db)

abbrev pub no_rows : Error
no_rows = opaque_error "no rows in result set"

abbrev pub scanned : Option Int64 → Exec Db Int64
scanned none db = (err no_rows, db)
scanned (some balance) db = (ok balance, db)

module _ (pg : Server) where
  unfoldable pub project_account_opened : AccountOpenedEvent → Exec Db ⊤
  project_account_opened event = wrapping "project account opened" (λ db.
      continue (call pg db) (λ _ s. (
        ok tt,
        with_balances
            (insert_new
              (record {
                account_id = event.account_id;
                name = event.name;
                account_type = event.account_type;
                currency = event.currency;
                balance = 0;
                status = "ACTIVE";
                version = 1;
                updated_at = pg.timestamptz event.timestamp;
              })
              s.tables.account_balances)
            s,
      )))

  unfoldable pub update_balance : Time → EntryEventData → Exec Db ⊤
  update_balance timestamp e db = continue (call pg db) (λ _ s.
      updated
        (update_all (pg.timestamptz timestamp) (delta e) e.account_id s.tables.account_balances) s)

  unfoldable pub select_balance : String → Exec Db Int64
  select_balance account db =
      continue (call pg db) (λ _ s. scanned (balance_at account s.tables.account_balances) s)

  -- VALUES ($1, …, $8)
  abbrev history_row : ℕ → TransactionRecordedEvent → EntryEventData → Int64 → HistoryRow
  history_row id event e balance_after = record {
    id = id;
    transaction_id = event.transaction_id;
    account_id = e.account_id;
    entry_type = e.type;
    amount = e.amount;
    currency = e.currency;
    description = event.description;
    balance_after = balance_after;
    created_at = pg.timestamptz event.timestamp;
  }

  unfoldable pub insert_history : TransactionRecordedEvent → EntryEventData → Int64 → Exec Db ⊤
  insert_history event e balance_after db = continue (call pg db) (λ _ s. (
    ok tt,
    record s {
      tables = record s.tables {
        transaction_history =
            s.tables.transaction_history ++ history_row s.next_history event e balance_after ∷ [];
      };
      next_history = s.next_history + 1;
    },
  ))

  -- The body of the loop.
  unfoldable pub project_entry : TransactionRecordedEvent → EntryEventData → Exec Db ⊤
  project_entry event e = do
    wrapping ("update balance for " <> e.account_id) (update_balance event.timestamp e)
    balance_after ←
        wrapping ("get balance after for " <> e.account_id) (select_balance e.account_id)
    wrapping ("insert history for " <> e.account_id) (insert_history event e balance_after)

  -- for _, entry := range event.Entries { … }
  unfoldable pub project_entries : TransactionRecordedEvent → List EntryEventData → Exec Db ⊤
  project_entries event [] = pure tt
  project_entries event (e ∷ es) = project_entry event e >> project_entries event es

  unfoldable pub project_transaction_recorded : TransactionRecordedEvent → Exec Db ⊤
  project_transaction_recorded event = transaction pg (λ _. project_entries event event.entries)

  abbrev pub projector : Projector Db
  projector = record {
    project_account_opened = project_account_opened;
    project_transaction_recorded = project_transaction_recorded;
  }
