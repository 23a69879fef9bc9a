-- ===== src/App/Service/Params.antt =====
-- RecordTransaction of internal/app/ledger_service.go: from the command's entries to the parameters
-- of a transaction, and what an entry does to its account.
use ledger_engine.Prelude.{ℕ, List, [], ◌∷◌, ◌+◌, ◌<>◌, decimal}
use ledger_engine.Environment.{Time}
use ledger_engine.Errors.{Result, ok, with_prefix, ◌>>=◌}
use ledger_engine.Ledger.Money.{new_money}
use ledger_engine.Ledger.Entry.{EntryType, debit, credit, other, EntryParams, Entry}
use ledger_engine.Account
use ledger_engine.Account.{Account}
use ledger_engine.App.Commands.{EntryCmd}

-- The loop over cmd.Entries, from index `i`.
unfoldable pub entry_params : ℕ → List EntryCmd → Result (List EntryParams)
entry_params i [] = ok []
entry_params i (e ∷ es) = do
  money ← with_prefix ("invalid money in entry " <> decimal i) (new_money e.amount e.currency)
  rest ← entry_params (i + 1) es
  ok (record { account_id = e.account_id; amount = money; type = e.type } ∷ rest)

abbrev apply_typed : EntryType → Time → Account → Entry → Result Account
apply_typed debit now acc entry = Account.debit now acc entry.amount
apply_typed credit now acc entry = Account.credit now acc entry.amount
apply_typed (other _) now acc entry = ok acc

-- The `switch` on the type of an entry; any other type leaves the account alone.
unfoldable pub apply_entry : Time → Account → Entry → Result Account
apply_entry now acc entry = apply_typed entry.type now acc entry
