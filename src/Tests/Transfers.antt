-- ===== src/Tests/Transfers.antt =====
-- TransferService on the concrete ledger: runs of the code, and instances of the theorems about it.
use ledger_engine.Prelude.{◌≡◌, refl, none, some}
use mathlib.Core.Option
use ledger_engine.Prelude.Int64.{add64, sub64, neg64}
use ledger_engine.Prelude.Dict.{lookup, insert}
use ledger_engine.Ledger.Money
use ledger_engine.Ledger.Money.{is_valid_currency, new_money}
use ledger_engine.Ledger.Identifiers.{generate_transaction_id, generate_entry_id}
use ledger_engine.Ledger.Entry.{new_entry}
use ledger_engine.Ledger.Transaction.{check_params, new_entries, new_transaction}
use ledger_engine.Ledger.Transaction.Checks.{
  check_amounts, check_currencies, add_to_totals, sum_entries, check_balance,
}
use ledger_engine.Account
use ledger_engine.Transfer.{
  completed, compensated, Transfer, new_transfer, mark_debited, mark_completed, mark_failed,
  mark_compensated,
}
use ledger_engine.App.Commands.{TransferCmd}
use ledger_engine.App.Contract.Conservation.{total_balance}
use ledger_engine.App.Service.Params.{entry_params, apply_entry}
use ledger_engine.App.Service.Accounts.{
  find_named, append_event, append_to, get_or_create_system_account, suspense_account_id,
}
use ledger_engine.App.Service.Recording.{
  record_entry, record_entries, publish_transaction, record_transaction,
}
use ledger_engine.App.Transfers.{
  after_compensation, after_credit, after_mark, after_debit, after_creation, after_money, execute,
  recording, compensate, credit_destination, debit_source,
}
use ledger_engine.App.Transfers.Delivery.{Delivered, execute-Delivered}
use ledger_engine.InMemory.{
  save_account, find_account, find_all_accounts, account_repository, save_transaction,
  transaction_repository,
}
use ledger_engine.InMemory.Store.{stored}
use ledger_engine.Tests.{uuids, ledger, laws, lists, town, everyone, town-Holds, town-IsSound}

abbrev rent : TransferCmd
rent = record {
  from_account_id = record { value = 1 };
  to_account_id = record { value = 2 };
  amount = 300;
  currency = "USD";
  description = "rent";
}

rent_error : (execute ledger rent town).1 ≡ none
unfolding after_compensation after_credit after_mark after_debit after_creation after_money execute
    recording compensate credit_destination debit_source new_transfer mark_debited mark_completed
    record_transaction record_entries record_entry publish_transaction entry_params apply_entry
    suspense_account_id get_or_create_system_account find_named append_event append_to
    new_transaction new_entries new_entry check_params check_amounts check_currencies add_to_totals
    sum_entries check_balance generate_transaction_id generate_entry_id new_money is_valid_currency
    add64 sub64 neg64 Account.debit Account.credit Money.add Money.subtract account_repository
    save_account find_account find_all_accounts save_transaction transaction_repository lookup
    insert
rent_error = refl

execute-Delivered_example :
    (saga : Transfer) × ((execute ledger rent town).0 ≡ some saga)
    × (saga.state ≡ completed)
    × Delivered ledger laws rent (stored uuids town) (stored uuids (execute ledger rent town).2)
execute-Delivered_example =
    execute-Delivered ledger laws lists rent town town-Holds town-IsSound rent_error

-- Account 9 is not stored: the second leg takes 300 from the suspense account and then fails, and
-- so does the leg that credits the source again. The saga says COMPENSATED, and 300 are gone.
abbrev lost : TransferCmd
lost = record rent { to_account_id = record { value = 9 } }

lost_state : Option.map (λ (t : Transfer). t.state) (execute ledger lost town).0 ≡ some compensated
unfolding after_compensation after_credit after_mark after_debit after_creation after_money execute
    recording compensate credit_destination debit_source new_transfer mark_debited mark_completed
    record_transaction record_entries record_entry publish_transaction entry_params apply_entry
    suspense_account_id get_or_create_system_account find_named append_event append_to
    new_transaction new_entries new_entry check_params check_amounts check_currencies add_to_totals
    sum_entries check_balance generate_transaction_id generate_entry_id new_money is_valid_currency
    add64 sub64 neg64 Account.debit Account.credit Money.add Money.subtract account_repository
    save_account find_account find_all_accounts save_transaction transaction_repository lookup
    insert mark_failed mark_compensated
lost_state = refl

lost_money :
    (total_balance (stored uuids town) everyone ≡ 1050)
    × (total_balance (stored uuids (execute ledger lost town).2) everyone ≡ 750)
unfolding after_compensation after_credit after_mark after_debit after_creation after_money execute
    recording compensate credit_destination debit_source new_transfer mark_debited mark_completed
    record_transaction record_entries record_entry publish_transaction entry_params apply_entry
    suspense_account_id get_or_create_system_account find_named append_event append_to
    new_transaction new_entries new_entry check_params check_amounts check_currencies add_to_totals
    sum_entries check_balance generate_transaction_id generate_entry_id new_money is_valid_currency
    add64 sub64 neg64 Account.debit Account.credit Money.add Money.subtract account_repository
    save_account find_account find_all_accounts save_transaction transaction_repository lookup
    insert mark_failed mark_compensated
lost_money = (refl, refl)
