-- ===== src/App/Contract/View.antt =====
-- The stored accounts, as a function of their ids.
use ledger_engine.Prelude.{Option, some, if◌then◌else◌}
use ledger_engine.Ledger.Identifiers.{AccountId, equals}
use ledger_engine.Account.{Account}

abbrev pub Accounts : Type 0
Accounts = AccountId → Option Account

-- the stored accounts, with one written over what its id had
abbrev pub update : Accounts → Account → Accounts
update v a j = if equals a.id j then some a else v j
