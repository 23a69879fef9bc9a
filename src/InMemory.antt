-- ===== src/InMemory.antt =====
-- internal/infra/inmemory: the repositories over Go maps. Each method holds the mutex throughout, so
-- it is one step. Go leaves the order in which a map is iterated open: it is a parameter.
pub mod Store
use mathlib.Core.List.{Perm}
use ledger_engine.Prelude.{
  ⊤, ℕ, Bool, true, false, ◌||◌, Option, none, some, List, [], ◌∷◌, ◌+◌, if◌then◌else◌,
}
use ledger_engine.Prelude.Dict.{Dict, lookup, insert, values}
use ledger_engine.Environment.{UuidLib}
use ledger_engine.Errors.{Error, Result, ok, err, account_not_found, transaction_not_found}
use ledger_engine.Exec.{Exec}
use ledger_engine.Ledger.Identifiers.{
  AccountId, TransactionId, equals, account_id_string, transaction_id_string,
}
use ledger_engine.Ledger.Entry.{Entry}
use ledger_engine.Ledger.Transaction.{Transaction}
use ledger_engine.Account.{Account}
use ledger_engine.App.Ports.{AccountRepository, TransactionRepository}

-- The two maps, and what the clock and the UUID generator have reached.
pub record World : Type 0 where
  pub accounts : Dict Account
  pub transactions : Dict Transaction
  pub ticks : ℕ
  pub drawn : ℕ

abbrev pub empty : World
empty = record { accounts = []; transactions = []; ticks = 0; drawn = 0 }

pub record MapOrder : Type 0 where
  pub of_accounts : List Account → List Account
  pub of_accounts-perm : (l : List Account) → Perm (of_accounts l) l
  pub of_transactions : List Transaction → List Transaction
  pub of_transactions-perm : (l : List Transaction) → Perm (of_transactions l) l

abbrev found_or : {A : Type 0} → Error → Option A → Result A
found_or e none = err e
found_or e (some a) = ok a

-- for _, entry := range tx.Entries() { if entry.AccountID().Equals(accountID) { … break } }
unfoldable pub mentions : AccountId → List Entry → Bool
mentions id [] = false
mentions id (e ∷ es) = equals e.account_id id || mentions id es

unfoldable pub mentioning : AccountId → List Transaction → List Transaction
mentioning id [] = []
mentioning id (tx ∷ txs) =
    let rest = mentioning id txs in if mentions id tx.entries then tx ∷ rest else rest

module _ (u : UuidLib) (order : MapOrder) where
  unfoldable pub save_account : Account → Exec World ⊤
  save_account acc w =
      (ok tt, record w { accounts = insert (account_id_string u acc.id) acc w.accounts })

  unfoldable pub find_account : AccountId → Exec World Account
  find_account id w = (found_or account_not_found (lookup (account_id_string u id) w.accounts), w)

  unfoldable pub find_all_accounts : Exec World (List Account)
  find_all_accounts w = (ok (order.of_accounts (values w.accounts)), w)

  unfoldable pub account_repository : AccountRepository World
  account_repository = record {
    save = save_account;
    find_by_id = find_account;
    find_all = find_all_accounts;
  }

  unfoldable pub save_transaction : Transaction → Exec World ⊤
  save_transaction tx w =
      (ok tt, record w { transactions = insert (transaction_id_string u tx.id) tx w.transactions })

  unfoldable pub find_transaction : TransactionId → Exec World Transaction
  find_transaction id w =
      (found_or transaction_not_found (lookup (transaction_id_string u id) w.transactions), w)

  unfoldable pub find_by_account : AccountId → Exec World (List Transaction)
  find_by_account id w = (ok (mentioning id (order.of_transactions (values w.transactions))), w)

  unfoldable pub transaction_repository : TransactionRepository World
  transaction_repository = record {
    save = save_transaction;
    find_by_id = find_transaction;
    find_by_account_id = find_by_account;
  }
