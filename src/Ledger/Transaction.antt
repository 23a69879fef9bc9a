-- ===== src/Ledger/Transaction.antt =====
-- internal/domain/ledger/transaction.go: NewTransaction, its checks in the source's order.
pub mod Checks
unfoldable pub use Checks.{check_params}
pub mod Spec
pub mod Validation
pub mod Creation
pub mod Keeping
use ledger_engine.Prelude.{String, List, [], ◌∷◌}
use ledger_engine.Environment.{Time, Env}
use ledger_engine.Exec.{Exec, pure, lift, total, ◌>>=◌, ◌>>◌}
use ledger_engine.Ledger.Identifiers.{TransactionId, generate_transaction_id}
use ledger_engine.Ledger.Entry.{EntryParams, Entry, new_entry}

pub record Transaction : Type 0 where
  pub id : TransactionId
  pub entries : List Entry
  pub description : String
  pub created_at : Time

module _ {S : Type 0} (env : Env S) where
  -- for i, p := range params { entries[i] = newEntry(p, now) }
  unfoldable pub new_entries : List EntryParams → Time → Exec S (List Entry)
  new_entries [] now = pure []
  new_entries (p ∷ ps) now = do e ← new_entry env p now; es ← new_entries ps now; pure (e ∷ es)

  unfoldable pub new_transaction : List EntryParams → String → Exec S Transaction
  new_transaction params description = do
    lift (check_params params)
    now ← total env.now
    entries ← new_entries params now
    id ← generate_transaction_id env
    pure (record { id = id; entries = entries; description = description; created_at = now })
