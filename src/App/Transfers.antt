-- ===== src/App/Transfers.antt =====
-- internal/app/transfer_service.go: the saga that moves money through the suspense account. Execute
-- returns a transfer, or nil, and an error, or nil.
pub mod Legs
pub mod Effect
pub mod Delivery
use ledger_engine.Prelude.{⊤, String, Option, none, some, List, [], ◌∷◌, ◌<>◌}
use ledger_engine.Environment.{Time}
use ledger_engine.Errors.{Error, Result, ok, err, opaque_error, wrap, message}
use ledger_engine.Exec.{Exec, ◌>>=◌}
use ledger_engine.Ledger.Money.{Money, new_money}
use ledger_engine.Ledger.Identifiers.{AccountId}
use ledger_engine.Ledger.Entry.{debit, credit}
use ledger_engine.Ledger.Transaction.{Transaction}
use ledger_engine.Transfer.{
  Transfer, new_transfer, mark_debited, mark_completed, mark_failed, mark_compensated,
}
use ledger_engine.App.Commands.{RecordTransactionCmd, TransferCmd}
use ledger_engine.App.Ports.{LedgerService}
use ledger_engine.App.Service.Accounts.{suspense_account_id}
use ledger_engine.App.Service.Recording.{record_transaction}

-- (*transfer.Transfer, error), and the state that is left.
abbrev pub Answer : Type 0 → Type 0
Answer S = Option Transfer × Option Error × S

-- The three commands of the saga, each a debit and a credit of the amount.
abbrev pub leg : TransferCmd → AccountId → AccountId → String → RecordTransactionCmd
leg cmd source target description = record {
  entries =
      record { account_id = source; amount = cmd.amount; currency = cmd.currency; type = debit }
      ∷ record { account_id = target; amount = cmd.amount; currency = cmd.currency; type = credit }
      ∷ [];
  description = description;
}

-- Out of the source into suspense, from suspense to the destination, and back to the source.
abbrev pub out_leg : TransferCmd → AccountId → RecordTransactionCmd
out_leg cmd suspense = leg cmd cmd.from_account_id suspense ("Transfer out: " <> cmd.description)

abbrev pub in_leg : TransferCmd → AccountId → RecordTransactionCmd
in_leg cmd suspense = leg cmd suspense cmd.to_account_id ("Transfer in: " <> cmd.description)

abbrev pub back_leg : TransferCmd → AccountId → RecordTransactionCmd
back_leg cmd suspense =
    leg cmd suspense cmd.from_account_id
      ("Compensation: reverse debit for failed transfer: " <> cmd.description)

module _ {S : Type 0} (svc : LedgerService S) where
  open svc use {env, uuid}

  -- A method of *Transfer is given the next two times.
  abbrev at_times : {A : Type 0} → (Time → Time → A) → S → A × S
  at_times mark s =
      let (now, s₁) = env.now s in let (stamp, s₂) = env.now s₁ in (mark now stamp, s₂)

  -- The suspense account is looked up, and opened if need be, before the transaction is recorded.
  unfoldable pub recording : TransferCmd → (AccountId → RecordTransactionCmd) → Exec S Transaction
  recording cmd command = do
    suspense ← suspense_account_id svc cmd.currency
    record_transaction svc (command suspense)

  -- The rest of Execute after each of its calls, the last one first.
  abbrev pub finished : (Result ⊤ × Transfer) × S → Answer S
  finished ((ok _, saga), s) = (some saga, none, s)
  finished ((err e, saga), s) = (some saga, some e, s)

  unfoldable pub after_compensation : Error → Transfer → Result Transaction × S → Answer S
  after_compensation e saga (err comp_err, s) = (
    some saga,
    some (
        opaque_error (
          "CRITICAL: compensation failed after credit failure: credit_err="
          <> message e
          <> ", comp_err="
          <> message comp_err)),
    s,
  )
  after_compensation e saga (ok _, s) =
      let (undone, s') = at_times (λ now stamp. mark_compensated now stamp saga) s in
      (some undone, some (wrap "transfer failed and compensated" e), s')

  unfoldable pub compensate : TransferCmd → Exec S Transaction
  compensate cmd = recording cmd (back_leg cmd)

  unfoldable pub after_credit : TransferCmd → Transfer → Result Transaction × S → Answer S
  unfolding after_compensation
  after_credit cmd saga (err e, s) =
      let (gave_up, s') =
        at_times (λ now stamp. mark_failed now stamp ("credit failed: " <> message e) saga) s in
      after_compensation e gave_up (compensate cmd s')
  after_credit cmd saga (ok _, s) =
      finished (at_times (λ now stamp. mark_completed now stamp saga) s)

  unfoldable pub credit_destination : TransferCmd → Exec S Transaction
  credit_destination cmd = recording cmd (in_leg cmd)

  unfoldable pub after_mark : TransferCmd → (Result ⊤ × Transfer) × S → Answer S
  unfolding after_credit
  after_mark cmd ((err e, saga), s) = (some saga, some e, s)
  after_mark cmd ((ok _, saga), s) = after_credit cmd saga (credit_destination cmd s)

  unfoldable pub after_debit : TransferCmd → Transfer → Result Transaction × S → Answer S
  unfolding after_mark
  after_debit cmd saga (err e, s) =
      let (gave_up, s') =
        at_times (λ now stamp. mark_failed now stamp ("debit failed: " <> message e) saga) s in
      (some gave_up, some (wrap "saga step 1 (debit source)" e), s')
  after_debit cmd saga (ok _, s) =
      after_mark cmd (at_times (λ now stamp. mark_debited now stamp saga) s)

  unfoldable pub debit_source : TransferCmd → Exec S Transaction
  debit_source cmd = recording cmd (out_leg cmd)

  unfoldable pub after_creation : TransferCmd → Result Transfer × S → Answer S
  unfolding after_debit
  after_creation cmd (err e, s) = (none, some (wrap "create transfer" e), s)
  after_creation cmd (ok saga, s) = after_debit cmd saga (debit_source cmd s)

  unfoldable pub after_money : TransferCmd → Result Money → S → Answer S
  unfolding after_creation
  after_money cmd (err e) s = (none, some (wrap "invalid amount" e), s)
  after_money cmd (ok money) s =
      after_creation cmd
        (new_transfer env uuid cmd.from_account_id cmd.to_account_id money cmd.description s)

  unfoldable pub execute : TransferCmd → S → Answer S
  unfolding after_money
  execute cmd s = after_money cmd (new_money cmd.amount cmd.currency) s
