-- ===== src/Postgres/Accounts.antt =====
-- internal/infra/postgres/account_repository.go: the accounts of the write model, a row each.
pub mod Saving
pub mod Balances
use ledger_engine.Prelude.{⊤, Bool, if◌then◌else◌, str_eq, String, ◌<>◌, List, [], ◌∷◌}
use ledger_engine.Prelude.Rows.{order_by}
use ledger_engine.Environment.{UuidLib}
use ledger_engine.Errors
use ledger_engine.Errors.{Error, Result, ok, err, wrap, account_not_found}
use ledger_engine.Exec.{Exec, wrapping, continue}
use ledger_engine.Ledger.Identifiers.{AccountId, account_id_string}
use ledger_engine.Account.{Account, account_type_string, status_string, reconstitute}
use ledger_engine.App.Ports.{AccountRepository}
use ledger_engine.Postgres.Tables.{AccountRow, Tables, Db}
use ledger_engine.Postgres.Server.{Server, call}

-- INSERT … ON CONFLICT (account_id) DO UPDATE SET balance = $5, status = $6, updated_at = $8
unfoldable pub upsert_account : AccountRow → List AccountRow → List AccountRow
upsert_account row [] = row ∷ []
upsert_account row (r ∷ rows) =
    if str_eq r.account_id row.account_id
    then record r { balance = row.balance; status = row.status; updated_at = row.updated_at } ∷ rows
    else r ∷ upsert_account row rows

module _ (pg : Server) (u : UuidLib) where
  abbrev pub account_row : Account → AccountRow
  account_row a = record {
    account_id = account_id_string u a.id;
    name = a.name;
    account_type = account_type_string a.type;
    currency = a.currency;
    balance = a.balance.amount;
    status = status_string a.status;
    created_at = pg.timestamptz a.created_at;
    updated_at = pg.timestamptz a.updated_at;
  }

  unfoldable pub save : Account → Exec Db ⊤
  save a db = continue (call pg db) (λ _ s. (
    ok tt,
    record s {
      tables = record s.tables { accounts = upsert_account (account_row a) s.tables.accounts };
    },
  ))

  abbrev reconstitute_row : AccountRow → Result Account
  reconstitute_row r =
      reconstitute u r.account_id r.name r.account_type r.currency r.balance r.status r.created_at
        r.updated_at

  -- QueryRow(…).Scan(…), and account.Reconstitute of what was scanned
  unfoldable pub find_row : AccountId → List AccountRow → Result Account
  find_row id [] = err (wrap ("find account " <> account_id_string u id) account_not_found)
  find_row id (r ∷ rows) =
      if str_eq r.account_id (account_id_string u id) then reconstitute_row r else find_row id rows

  unfoldable pub find_by_id : AccountId → Exec Db Account
  find_by_id id db =
      continue (wrapping "query account" (call pg) db) (λ _ s. (find_row id s.tables.accounts, s))

  -- for rows.Next() { … }, up to the first row that is no account
  unfoldable pub reconstitute_all : List AccountRow → Result (List Account)
  reconstitute_all [] = ok []
  reconstitute_all (r ∷ rows) =
      Errors.◌>>=◌ (reconstitute_row r)
        λ a. Errors.◌>>=◌ (reconstitute_all rows) λ accounts. ok (a ∷ accounts)

  abbrev pub read_accounts : Result (List Account) → Exec Db (List Account)
  read_accounts (err e) db = (err e, db)
  read_accounts (ok accounts) db = continue (call pg db) (λ _ s. (ok accounts, s))

  -- ORDER BY name; rows.Err() comes after the rows
  unfoldable pub find_all : Exec Db (List Account)
  find_all db = continue (call pg db) (λ _ s.
      read_accounts
        (reconstitute_all
          (order_by (λ (r r' : AccountRow). pg.collation r.name r'.name) s.tables.accounts))
        s)

  abbrev pub account_repository : AccountRepository Db
  account_repository = record { save = save; find_by_id = find_by_id; find_all = find_all }
