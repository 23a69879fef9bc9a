-- ===== src/Ledger/Transaction/Keeping.antt =====
-- NewTransaction of internal/domain/ledger/transaction.go: it changes no more than the clock and the
-- source of UUIDs do.
use ledger_engine.Prelude.{String, List, [], ◌∷◌}
use ledger_engine.Environment.{Time, Env}
use ledger_engine.Exec.{lift}
use ledger_engine.Exec.Keeping.{Keeps, continue-Keeps}
use ledger_engine.Ledger.Identifiers.{generate_entry_id, generate_transaction_id}
use ledger_engine.Ledger.Entry.{EntryParams, new_entry}
use ledger_engine.Ledger.Transaction.{check_params, new_entries, new_transaction}

module _ {S : Type 0} (P : S → Type 0) (env : Env S) (now_keeps : (s : S) → P s → P (env.now s).1)
    (uuid_keeps : (s : S) → P s → P (env.new_uuid s).1) where
  new_entries-Keeps : (ps : List EntryParams) (now : Time) → Keeps P (new_entries env ps now)
  unfolding new_entries new_entry generate_entry_id
  new_entries-Keeps [] now s h = h
  new_entries-Keeps (p ∷ ps) now s h =
      continue-Keeps P (new_entries env ps now (env.new_uuid s).1) _
        (new_entries-Keeps ps now (env.new_uuid s).1 (uuid_keeps s h)) (λ _ s' h'. h')

  pub new_transaction-Keeps :
      (ps : List EntryParams) (description : String) → Keeps P (new_transaction env ps description)
  unfolding new_transaction generate_transaction_id
  new_transaction-Keeps ps description s h =
      continue-Keeps P (lift (check_params ps) s) _ h (λ _ s' h'.
        continue-Keeps P (new_entries env ps (env.now s').0 (env.now s').1) _
          (new_entries-Keeps ps (env.now s').0 (env.now s').1 (now_keeps s' h'))
          (λ _ s'' h''. uuid_keeps s'' h''))
