-- ===== src/App/Service/Recording/Balance.antt =====
-- RecordTransaction of internal/app/ledger_service.go and the sum of the balances.
use ledger_engine.Prelude.{◌≡◌, List, map}
use ledger_engine.Errors.{ok}
use ledger_engine.Exec.Rules.{Outcome-ok}
use ledger_engine.Ledger.Identifiers.{AccountId}
use ledger_engine.Ledger.Transaction.{Transaction}
use ledger_engine.App.Commands.{RecordTransactionCmd}
use ledger_engine.App.Ports.{LedgerService}
use ledger_engine.App.Contract.{Contract}
use ledger_engine.App.Contract.Effects.{IsSound}
use ledger_engine.App.Contract.Conservation.{total_balance, ListsOnce, Moved-total_balance}
use ledger_engine.App.Service.Recording.{record_transaction}
use ledger_engine.App.Service.Recording.Effect.{requested, record_transaction-Outcome}

module _ {S : Type 0} (svc : LedgerService S) (c : Contract svc) where
  open c use {view}

  -- For repositories that fulfil the contract of the services, as the in-memory ones do: on a
  -- sound ledger a transaction that is recorded leaves the sum of the balances, as an int64, as
  -- it was, over any list of accounts on which those of its entries stand once each.
  pub record_transaction_conserves :
      (cmd : RecordTransactionCmd) (s s' : S) (tx : Transaction) (ids : List AccountId)
      → IsSound (view s)
      → record_transaction svc cmd s ≡ (ok tx, s')
      → ListsOnce (map requested cmd.entries) ids
      → total_balance (view s') ids ≡ total_balance (view s) ids
  record_transaction_conserves cmd s s' tx ids sound run once =
      let r =
        Outcome-ok _ _ (record_transaction svc cmd s) run
          (record_transaction-Outcome svc c cmd s sound) in
      Moved-total_balance ids (map requested cmd.entries) (view s) (view s') r.moved
        r.records.booked.balanced once
