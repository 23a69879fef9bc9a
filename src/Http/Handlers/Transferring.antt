-- ===== src/Http/Handlers/Transferring.antt =====
-- Which transfers have no response.
use ledger_engine.Prelude.{
  ⊤, ◌≡◌, ◌≢◌, ◌↔◌, ◌⊎◌, refl, true, false, inl, inr, Bool-cases, none, some,
}
use ledger_engine.Errors.{Error, Result, ok, err}
use ledger_engine.Ledger.Money.{new_money, is_valid_currency}
use ledger_engine.Ledger.Identifiers.{AccountId, new_account_id, equals}
use ledger_engine.Ledger.Transaction.{Transaction}
use ledger_engine.Transfer.{Transfer, new_transfer}
use ledger_engine.App.Ports.{LedgerService}
use ledger_engine.App.Transfers.{
  Answer, finished, execute, after_money, after_creation, after_debit, after_mark, after_credit,
  after_compensation,
}
use ledger_engine.App.Commands.{TransferCmd}
use ledger_engine.Http.{Request}
use ledger_engine.Http.Handlers.Json.{TransferRequest, Codec}
use ledger_engine.Http.Handlers.{QueryService, or_default, usd, transferred, handle_transfer}

module _ {S : Type 0} (svc : LedgerService S) where
  -- There is a transfer beside the error, if there is one.
  abbrev HasSaga : Answer S → Type 0
  HasSaga a = a.0 ≢ none

  some_nil : (saga : Transfer) → some saga ≢ none
  some_nil saga = λ e. cc e

  finished-HasSaga : (m : (Result ⊤ × Transfer) × S) → HasSaga (finished svc m)
  finished-HasSaga ((ok _, saga), s) = some_nil saga
  finished-HasSaga ((err e, saga), s) = some_nil saga

  after_compensation-HasSaga :
      (e : Error) (saga : Transfer) (r : Result Transaction × S)
      → HasSaga (after_compensation svc e saga r)
  unfolding after_compensation
  after_compensation-HasSaga e saga (err f, s) = some_nil saga
  after_compensation-HasSaga e saga (ok _, s) = some_nil _

  after_credit-HasSaga :
      (cmd : TransferCmd) (saga : Transfer) (r : Result Transaction × S)
      → HasSaga (after_credit svc cmd saga r)
  unfolding after_credit
  after_credit-HasSaga cmd saga (err e, s) = after_compensation-HasSaga e _ _
  after_credit-HasSaga cmd saga (ok _, s) = finished-HasSaga _

  after_mark-HasSaga :
      (cmd : TransferCmd) (m : (Result ⊤ × Transfer) × S) → HasSaga (after_mark svc cmd m)
  unfolding after_mark
  after_mark-HasSaga cmd ((err e, saga), s) = some_nil saga
  after_mark-HasSaga cmd ((ok _, saga), s) = after_credit-HasSaga cmd saga _

  after_debit-HasSaga :
      (cmd : TransferCmd) (saga : Transfer) (r : Result Transaction × S)
      → HasSaga (after_debit svc cmd saga r)
  unfolding after_debit
  after_debit-HasSaga cmd saga (err e, s) = some_nil _
  after_debit-HasSaga cmd saga (ok _, s) = after_mark-HasSaga cmd _

  -- A nil saga is that of a currency or of two accounts that are refused.
  abbrev IsRefused : TransferCmd → Type 0
  IsRefused cmd =
      (is_valid_currency cmd.currency ≡ false)
      ⊎ (equals cmd.from_account_id cmd.to_account_id ≡ true)

  execute-nil : (cmd : TransferCmd) (s : S) → ((execute svc cmd s).0 ≡ none) ↔ IsRefused cmd
  unfolding execute after_money after_creation new_money new_transfer
  execute-nil cmd s = elim (Bool-cases (is_valid_currency cmd.currency)) [
    | inr bad ↦ rw bad ((λ _. inl refl), (λ _. refl))
    | inl good ↦ elim (Bool-cases (equals cmd.from_account_id cmd.to_account_id)) [
      | inl same ↦ rw (good, same) ((λ _. inr refl), (λ _. refl))
      | inr apart ↦
          rw (good, apart)
            (
              (λ e. absurd (after_debit-HasSaga cmd _ _ e)),
              (λ h. elim h [ inl bad ↦ absurd (cc bad) | inr same ↦ absurd (cc same) ]),
            )
    ]
  ]

module _ {S : Type 0} (codec : Codec) (svc : LedgerService S) (queries : QueryService S) where
  open svc use {uuid}

  transferred-nil : (a : Answer S) → ((transferred codec svc queries a).0 ≡ none) ↔ (a.0 ≡ none)
  transferred-nil (some saga, none, s) = ((λ e. absurd (cc e)), (λ e. absurd (cc e)))
  transferred-nil (none, none, s) = ((λ _. refl), (λ _. refl))
  transferred-nil (some saga, some f, s) = ((λ e. absurd (cc e)), (λ e. absurd (cc e)))
  transferred-nil (none, some f, s) = ((λ _. refl), (λ _. refl))

  -- For a body that is decoded and ids that are read, the transfer handler panics exactly if the
  -- currency, USD in place of none, is unknown, or the two accounts are the same.
  pub handle_transfer-nil :
      (r : Request) (s : S) (req : TransferRequest codec.Float) (from to : AccountId)
      → codec.decode_transfer r.body ≡ some req
      → new_account_id uuid req.from_account_id ≡ ok from
      → new_account_id uuid req.to_account_id ≡ ok to
      → ((handle_transfer codec svc queries r s).0 ≡ none)
        ↔ ((is_valid_currency (or_default req.currency usd) ≡ false) ⊎ (equals from to ≡ true))
  unfolding handle_transfer
  handle_transfer-nil r s req from to d f t =
      let cmd : TransferCmd = record {
        from_account_id = from;
        to_account_id = to;
        amount = codec.cents req.amount;
        currency = or_default req.currency usd;
        description = or_default req.description "Transfer";
      } in
      let nil = transferred-nil (execute svc cmd s) in
      let refused = execute-nil svc cmd s in
      rw (d, f, t) ((λ e. refused.0 (nil.0 e)), (λ h. nil.1 (refused.1 h)))
