-- ===== src/Tests/ReadModel.antt =====
-- The tables of accounts and balances: instances of the theorems about them.
use ledger_engine.Prelude.{◌≡◌, ◌≢◌, refl, String, [], ◌∷◌}
use ledger_engine.Exec.Rules.{Outcome}
use ledger_engine.Errors.{ok}
use ledger_engine.Ledger.Event.{TransactionRecordedEvent, Snapshot}
use ledger_engine.Postgres.EventStore.{save_snapshot, load_snapshot, find_snapshot}
use ledger_engine.Postgres.EventStore.Snapshots.{load_snapshot-save_snapshot}
use ledger_engine.Ledger.Identifiers.{AccountId, account_id_string}
use ledger_engine.Account.{account_type, account_type_string, status_of, status_string}
use ledger_engine.Account.Persistence.{IsWritten}
use ledger_engine.Postgres.Tables
use ledger_engine.Postgres.Tables.{BalanceRow, Tables, Db}
use ledger_engine.Postgres.Accounts.{save, find_row, find_by_id}
use ledger_engine.Postgres.Accounts.Saving.{find_by_id-save}
use ledger_engine.Projection.{project_transaction_recorded}
use ledger_engine.Projection.Following.{Followed, project_transaction_recorded-Outcome}
use ledger_engine.Tests.{postgres, uuids, alice, alice-IsValid}

abbrev balance_row : BalanceRow
balance_row = record {
  account_id = "|";
  name = "Alice";
  account_type = "ASSET";
  currency = "USD";
  balance = 1000;
  status = "ACTIVE";
  version = 1;
  updated_at = 0;
}

abbrev one_account : Db
one_account = record Tables.empty {
  tables = record Tables.empty.tables { account_balances = balance_row ∷ [] };
}

abbrev payment : TransactionRecordedEvent
payment = record {
  id = "";
  transaction_id = "||||";
  entries =
      record { entry_id = "||"; account_id = "|"; amount = 300; currency = "USD"; type = "DEBIT" }
      ∷ [];
  description = "groceries";
  timestamp = 9;
}

project_transaction_recorded-Outcome_example :
    Outcome
      (λ _ s'. Followed postgres payment one_account.tables s'.tables)
      (λ s'. s'.tables ≡ one_account.tables)
      (project_transaction_recorded postgres payment one_account)
project_transaction_recorded-Outcome_example =
    project_transaction_recorded-Outcome postgres payment one_account

alice-IsWritten : IsWritten alice
unfolding account_type account_type_string status_of status_string
alice-IsWritten = record { type_text = refl; status_text = refl }

find_by_id-save_example :
    ((find_by_id postgres uuids alice.id (save postgres uuids alice Tables.empty).1).0 ≡ ok alice)
    × ((id : AccountId)
        → account_id_string uuids alice.id ≢ account_id_string uuids id
        → find_row postgres uuids id (save postgres uuids alice Tables.empty).1.tables.accounts
          ≡ find_row postgres uuids id Tables.empty.tables.accounts)
find_by_id-save_example =
    find_by_id-save postgres uuids alice Tables.empty refl refl alice-IsValid alice-IsWritten refl
      refl (λ r inside. absurd inside)

abbrev snapshot : Snapshot
snapshot = record { aggregate_id = "|"; version = 3; payload = 123 ∷ 125 ∷ [] }

load_snapshot-save_snapshot_example :
    ((load_snapshot postgres "|" (save_snapshot postgres snapshot Tables.empty).1).0 ≡ ok snapshot)
    × ((aggregate : String)
        → "|" ≢ aggregate
        → find_snapshot aggregate (save_snapshot postgres snapshot Tables.empty).1.tables.snapshots
          ≡ find_snapshot aggregate Tables.empty.tables.snapshots)
load_snapshot-save_snapshot_example =
    load_snapshot-save_snapshot postgres snapshot (123 ∷ 125 ∷ []) Tables.empty refl refl refl
