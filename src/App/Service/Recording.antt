-- ===== src/App/Service/Recording.antt =====
-- internal/app/ledger_service.go: RecordTransaction and Deposit.
use ledger_engine.Prelude.{⊤, String, List, [], ◌∷◌, ◌<>◌, map}
pub mod Entries
pub mod Publishing
pub mod Effect
pub mod Balance
pub mod Atomicity
use ledger_engine.Prelude.Int64.{Int64}
use ledger_engine.Environment.{UuidLib}
use ledger_engine.Exec.{Exec, pure, lift, total, wrapping, ◌>>=◌, ◌>>◌}
use ledger_engine.Ledger.Money.{Currency}
use ledger_engine.Ledger.Identifiers.{
  AccountId, account_id_string, transaction_id_string, entry_id_string,
}
use ledger_engine.Ledger.Entry.{debit, credit, entry_type_string, Entry}
use ledger_engine.Ledger.Transaction.{Transaction, new_transaction}
use ledger_engine.Ledger.Event.{TransactionRecordedEvent, EntryEventData, transaction_recorded}
use ledger_engine.App.Commands.{RecordTransactionCmd}
use ledger_engine.App.Ports.{LedgerService}
use ledger_engine.App.Service.Accounts.{append_event, ignoring, get_or_create_system_equity}
use ledger_engine.App.Service.Params.{entry_params, apply_entry}

-- The body of the loop that builds `entryData`.
unfoldable pub entry_event_data : UuidLib → Entry → EntryEventData
entry_event_data u e = record {
  entry_id = entry_id_string u e.id;
  account_id = account_id_string u e.account_id;
  amount = e.amount.amount;
  currency = e.amount.currency;
  type = entry_type_string e.type;
}

module _ {S : Type 0} (svc : LedgerService S) where
  open svc use {accounts, transactions, projector, env, uuid}

  -- One round of the loop that updates the balances. The time that Debit or Credit sets is drawn
  -- before the account is changed, whether it will be set or not.
  unfoldable pub record_entry : Entry → Exec S ⊤
  record_entry entry = do
    let id = account_id_string uuid entry.account_id
    acc ← wrapping ("find account " <> id) (accounts.find_by_id entry.account_id)
    now ← total env.now
    changed ←
        wrapping ("apply " <> entry_type_string entry.type <> " to account " <> id)
          (lift (apply_entry now acc entry))
    wrapping ("save account " <> id) (accounts.save changed)

  unfoldable pub record_entries : List Entry → Exec S ⊤
  record_entries [] = pure tt
  record_entries (e ∷ es) = do record_entry e; record_entries es

  -- What RecordTransaction does once the balances are saved.
  unfoldable pub publish_transaction : Transaction → String → Exec S ⊤
  publish_transaction tx description = do
    wrapping "save transaction" (transactions.save tx)
    now ← total env.now
    let event : TransactionRecordedEvent = record {
      id = "";
      transaction_id = transaction_id_string uuid tx.id;
      entries = map (entry_event_data uuid) tx.entries;
      description = description;
      timestamp = now;
    }
    wrapping "emit transaction recorded" (
        append_event svc (transaction_id_string uuid tx.id) "transaction" 0
          (transaction_recorded event))
    ignoring svc (λ p. p.project_transaction_recorded event) projector

  unfoldable pub record_transaction : RecordTransactionCmd → Exec S Transaction
  record_transaction cmd = do
    params ← lift (entry_params 0 cmd.entries)
    tx ← wrapping "create transaction" (new_transaction env params cmd.description)
    record_entries tx.entries
    publish_transaction tx cmd.description
    pure tx

  unfoldable pub deposit : AccountId → Int64 → Currency → String → Exec S ⊤
  deposit account_id amount currency description = do
    equity ← wrapping "get system equity" (get_or_create_system_equity svc currency)
    record_transaction (record {
      entries =
          record { account_id = equity.id; amount = amount; currency = currency; type = debit }
          ∷ record { account_id = account_id; amount = amount; currency = currency; type = credit }
          ∷ [];
      description = description;
    })
    pure tt
