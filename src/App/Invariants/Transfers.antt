-- ===== src/App/Invariants/Transfers.antt =====
-- TransferService of internal/app/transfer_service.go.
use ledger_engine.Prelude.{⊤, inl, inr, Bool-cases, String}
use ledger_engine.Errors.{Error, Result, ok, err}
use ledger_engine.Exec.Keeping.{Keeps, continue-Keeps}
use ledger_engine.Ledger.Money.{Money, new_money}
use ledger_engine.Ledger.Identifiers.{AccountId, equals}
use ledger_engine.Ledger.Transaction.{Transaction}
use ledger_engine.Transfer.{Transfer, new_transfer}
use ledger_engine.App.Commands.{RecordTransactionCmd, TransferCmd}
use ledger_engine.App.Ports.{LedgerService}
use ledger_engine.App.Service.Accounts.{suspense_account_id}
use ledger_engine.App.Transfers.{
  recording, finished, after_compensation, compensate, after_credit, credit_destination, after_mark,
  after_debit, debit_source, after_creation, after_money, execute, in_leg, back_leg, out_leg,
}
use ledger_engine.App.Invariants.{Upholds}
use ledger_engine.App.Invariants.Services.{record_transaction-Keeps, suspense_account_id-Keeps}

module _ {S : Type 0} {svc : LedgerService S} {P : S → Type 0} (keeps : Upholds P svc) where
  at_times-Keeps : (s : S) → P s → P (svc.env.now (svc.env.now s).1).1
  at_times-Keeps s h = keeps.now (svc.env.now s).1 (keeps.now s h)

  recording-Keeps :
      (cmd : TransferCmd) (command : AccountId → RecordTransactionCmd)
      → Keeps P (recording svc cmd command)
  unfolding recording
  recording-Keeps cmd command s h =
      continue-Keeps P (suspense_account_id svc cmd.currency s) _
        (suspense_account_id-Keeps keeps cmd.currency s h)
        (λ suspense. record_transaction-Keeps keeps (command suspense))

  finished-Keeps : (r : (Result ⊤ × Transfer) × S) → P r.1 → P (finished svc r).2
  finished-Keeps ((ok _, saga), s) h = h
  finished-Keeps ((err e, saga), s) h = h

  after_compensation-Keeps :
      (e : Error) (saga : Transfer) (r : Result Transaction × S)
      → P r.1
      → P (after_compensation svc e saga r).2
  unfolding after_compensation
  after_compensation-Keeps e saga (err comp_err, s) h = h
  after_compensation-Keeps e saga (ok _, s) h = at_times-Keeps s h

  after_credit-Keeps :
      (cmd : TransferCmd) (saga : Transfer) (r : Result Transaction × S)
      → P r.1
      → P (after_credit svc cmd saga r).2
  unfolding after_credit compensate
  after_credit-Keeps cmd saga (err e, s) h =
      after_compensation-Keeps e _ (compensate svc cmd _)
        (recording-Keeps cmd (back_leg cmd) _ (at_times-Keeps s h))
  after_credit-Keeps cmd saga (ok _, s) h = finished-Keeps (_, _) (at_times-Keeps s h)

  after_mark-Keeps :
      (cmd : TransferCmd) (r : (Result ⊤ × Transfer) × S) → P r.1 → P (after_mark svc cmd r).2
  unfolding after_mark credit_destination
  after_mark-Keeps cmd ((err e, saga), s) h = h
  after_mark-Keeps cmd ((ok _, saga), s) h =
      after_credit-Keeps cmd saga (credit_destination svc cmd s)
        (recording-Keeps cmd (in_leg cmd) s h)

  after_debit-Keeps :
      (cmd : TransferCmd) (saga : Transfer) (r : Result Transaction × S)
      → P r.1
      → P (after_debit svc cmd saga r).2
  unfolding after_debit
  after_debit-Keeps cmd saga (err e, s) h = at_times-Keeps s h
  after_debit-Keeps cmd saga (ok _, s) h = after_mark-Keeps cmd (_, _) (at_times-Keeps s h)

  new_transfer-Keeps :
      (source target : AccountId) (amount : Money) (description : String)
      → Keeps P (new_transfer svc.env svc.uuid source target amount description)
  unfolding new_transfer
  new_transfer-Keeps source target amount description s h =
      elim (Bool-cases (equals source target)) [
        | inl same ↦ rw same h
        | inr apart ↦ rw apart (keeps.now _ (keeps.new_uuid (svc.env.now s).1 (keeps.now s h)))
      ]

  after_creation-Keeps :
      (cmd : TransferCmd) (r : Result Transfer × S) → P r.1 → P (after_creation svc cmd r).2
  unfolding after_creation debit_source
  after_creation-Keeps cmd (err e, s) h = h
  after_creation-Keeps cmd (ok saga, s) h =
      after_debit-Keeps cmd saga (debit_source svc cmd s) (recording-Keeps cmd (out_leg cmd) s h)

  after_money-Keeps :
      (cmd : TransferCmd) (r : Result Money) (s : S) → P s → P (after_money svc cmd r s).2
  unfolding after_money
  after_money-Keeps cmd (err e) s h = h
  after_money-Keeps cmd (ok money) s h =
      after_creation-Keeps cmd (new_transfer svc.env svc.uuid _ _ money _ s)
        (new_transfer-Keeps _ _ money _ s h)

  pub execute-Keeps : (cmd : TransferCmd) (s : S) → P s → P (execute svc cmd s).2
  unfolding execute
  execute-Keeps cmd s h = after_money-Keeps cmd (new_money cmd.amount cmd.currency) s h
