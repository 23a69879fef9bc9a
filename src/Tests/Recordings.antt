-- ===== src/Tests/Recordings.antt =====
-- LedgerService on the concrete ledger: runs of the code, and instances of the theorems about it.
use ledger_engine.Prelude.{ℕ, ◌≡◌, refl, false, none, some, [], ◌∷◌, arith}
use ledger_engine.Exec.Rules.{Outcome}
use ledger_engine.Environment.{Time}
use ledger_engine.Prelude.Int64.{is_negative, add64, sub64, neg64}
use ledger_engine.Prelude.Dict.{lookup, insert}
use ledger_engine.Errors.{Error, ok, err}
use ledger_engine.Ledger.Money
use ledger_engine.Ledger.Money.{is_valid_currency, new_money}
use ledger_engine.Ledger.Identifiers.{AccountId, generate_transaction_id, generate_entry_id}
use ledger_engine.Ledger.Entry.{EntryType, Entry, debit, credit, new_entry}
use ledger_engine.Account.Spec.{debited}
use ledger_engine.Ledger.Transaction.{Transaction}
use ledger_engine.Ledger.Transaction.{check_params, new_entries, new_transaction}
use ledger_engine.Ledger.Transaction.Checks.{
  check_amounts, check_currencies, add_to_totals, sum_entries, check_balance,
}
use ledger_engine.Account
use ledger_engine.App.Commands.{OpenAccountCmd, RecordTransactionCmd}
use ledger_engine.App.Contract.{update}
use ledger_engine.App.Contract.Effects.{IsSound}
use ledger_engine.App.Contract.Conservation.{total_balance}
use ledger_engine.App.Service.Opening.{IsNew, MayHaveOpened, open_account-Outcome}
use ledger_engine.App.Service.Lookup.{Found, Returned, suspense_name, suspense_account_id-Found}
use ledger_engine.App.Service.Recording.Effect.{Recorded, Stopped, record_transaction-Outcome}
use ledger_engine.App.Service.Recording.Balance.{record_transaction_conserves}
use ledger_engine.App.Service.Recording.Atomicity.{record_entries_keeps_debit}
use ledger_engine.App.Service.Params.{entry_params, apply_entry}
use ledger_engine.App.Service.Accounts.{
  append_event, append_to, open_account, get_or_create_system_account, suspense_account_id,
}
use ledger_engine.App.Service.Depositing.{Deposited, deposit-Outcome}
use ledger_engine.App.Service.Recording.{
  deposit, record_entry, record_entries, publish_transaction, record_transaction,
}
use ledger_engine.InMemory.{
  World, save_account, find_account, account_repository, save_transaction, transaction_repository,
}
use ledger_engine.InMemory.Store.{stored}
use ledger_engine.Tests.{
  uuids, ledger, laws, lists, town-Holds, ledger-IsReliable, alice, town, everyone, alice-IsValid,
  town-IsSound,
}

abbrev carol : OpenAccountCmd
carol = record { name = "Carol"; account_type = "ASSET"; currency = "USD" }

-- Alice pays Bob, and the bank keeps a part.
abbrev split : RecordTransactionCmd
split = record {
  entries =
      record { account_id = record { value = 1 }; amount = 300; currency = "USD"; type = debit }
      ∷ record { account_id = record { value = 2 }; amount = 290; currency = "USD"; type = credit }
      ∷ record { account_id = record { value = 3 }; amount = 10; currency = "USD"; type = credit }
      ∷ [];
  description = "groceries";
}

record_transaction-Outcome_example :
    Outcome
      (λ tx s'. Recorded ledger laws split tx (stored uuids town) (stored uuids s'))
      (λ s'. Stopped ledger laws split (stored uuids town) (stored uuids s'))
      (record_transaction ledger split town)
record_transaction-Outcome_example = record_transaction-Outcome ledger laws split town town-IsSound

open_account-Outcome_example :
    Outcome
      (λ a s'. IsNew carol a × (stored uuids s' ≡ update (stored uuids town) a))
      (λ s'. MayHaveOpened carol (stored uuids town) (stored uuids s'))
      (open_account ledger carol town)
open_account-Outcome_example = open_account-Outcome ledger laws carol town

suspense_account_id-Found_example :
    (id : AccountId) × (s' : World) × (suspense_account_id ledger "USD" town ≡ (ok id, s'))
    × Found ledger laws (suspense_name "USD") (stored uuids town) (stored uuids s') id
    × Returned ledger laws
        (get_or_create_system_account ledger (suspense_name "USD") "LIABILITY" "USD" town)
        id
suspense_account_id-Found_example =
    suspense_account_id-Found ledger laws lists "USD" town town-Holds

abbrev entry_of : ℕ → ℕ → EntryType → Entry
entry_of id account type = record {
  id = record { value = id };
  account_id = record { value = account };
  amount = record { amount = 300; currency = "USD" };
  type = type;
  created_at = 0;
}

alice_stored : stored uuids town (record { value = 1 }) ≡ some alice
unfolding save_account lookup insert
alice_stored = refl

nobody_stored : stored uuids town (record { value = 9 }) ≡ none
unfolding save_account lookup insert
nobody_stored = refl

covered : is_negative (sub64 1000 300) ≡ false
unfolding sub64
covered = refl

-- Account 9 is not stored.
record_entries_keeps_debit_example :
    (x : Error) × (now : Time) × ((record_entries ledger
        (entry_of 7 1 debit ∷ entry_of 8 9 credit ∷ [])
        town).0
      ≡ err x)
    × (stored uuids (record_entries ledger (entry_of 7 1 debit ∷ entry_of 8 9 credit ∷ []) town).1
        ≡ update
            (stored uuids town)
            (debited now alice (record { amount = 300; currency = "USD" })))
record_entries_keeps_debit_example =
    record_entries_keeps_debit laws ledger-IsReliable (entry_of 7 1 debit) (entry_of 8 9 credit)
      town alice alice_stored alice-IsValid refl
      (record { is_active = refl; nonzero = omega arith; same_currency = refl }) covered (λ h. cc)
      nobody_stored

-- What is recorded of the split.
abbrev groceries : Transaction
groceries = record {
  id = record { value = 103 };
  entries =
      entry_of 100 1 debit
      ∷ record (entry_of 101 2 credit) { amount = record { amount = 290; currency = "USD" } }
      ∷ record (entry_of 102 3 credit) { amount = record { amount = 10; currency = "USD" } }
      ∷ [];
  description = "groceries";
  created_at = 0;
}

split_run :
    record_transaction ledger split town ≡ (ok groceries, (record_transaction ledger split town).1)
unfolding record_transaction record_entries record_entry publish_transaction entry_params
    apply_entry append_event append_to new_transaction new_entries new_entry check_params
    check_amounts check_currencies add_to_totals sum_entries check_balance generate_transaction_id
    generate_entry_id new_money is_valid_currency add64 sub64 neg64 Account.debit Account.credit
    Money.add Money.subtract account_repository save_account find_account save_transaction
    transaction_repository lookup insert
split_run = refl

record_transaction_conserves_example :
    total_balance (stored uuids (record_transaction ledger split town).1) everyone
    ≡ total_balance (stored uuids town) everyone
record_transaction_conserves_example =
    record_transaction_conserves ledger laws split town (record_transaction ledger split town).1
      groceries everyone town-IsSound split_run (refl, (refl, (refl, tt)))

deposit-Outcome_example :
    Outcome
      (λ _ s'.
        IsSound (stored uuids s')
        × Deposited ledger laws
            (record { value = 1 })
            500
            "USD"
            (stored uuids town)
            (stored uuids s'))
      (λ s'. IsSound (stored uuids s'))
      (deposit ledger (record { value = 1 }) 500 "USD" "salary" town)
deposit-Outcome_example =
    deposit-Outcome ledger laws (record { value = 1 }) 500 "USD" lists "salary" town town-Holds
      (omega arith) town-IsSound
