-- ===== src/Ledger/Entry.antt =====
-- internal/domain/ledger/entry.go. An `EntryType` is a string, of which the program tells "DEBIT"
-- and "CREDIT" apart; `other` is any other text.
use ledger_engine.Prelude.{String, str_eq, if◌then◌else◌}
use ledger_engine.Environment.{Time, Env}
use ledger_engine.Exec.{Exec, pure, ◌>>=◌}
use ledger_engine.Ledger.Money.{Money}
use ledger_engine.Ledger.Identifiers.{AccountId, EntryId, generate_entry_id}

pub data EntryType : Type 0 where
  debit credit : EntryType
  other : String → EntryType

-- ledger.EntryType(s)
unfoldable pub entry_type : String → EntryType
entry_type s = if str_eq s "DEBIT" then debit else if str_eq s "CREDIT" then credit else other s

-- string(t)
unfoldable pub entry_type_string : EntryType → String
entry_type_string debit = "DEBIT"
entry_type_string credit = "CREDIT"
entry_type_string (other s) = s

pub record EntryParams : Type 0 where
  pub account_id : AccountId
  pub amount : Money
  pub type : EntryType

pub record Entry : Type 0 where
  pub id : EntryId
  pub account_id : AccountId
  pub amount : Money
  pub type : EntryType
  pub created_at : Time

unfoldable pub new_entry : {S : Type 0} → Env S → EntryParams → Time → Exec S Entry
new_entry env params now = do
  id ← generate_entry_id env
  pure (record {
    id = id;
    account_id = params.account_id;
    amount = params.amount;
    type = params.type;
    created_at = now;
  })
