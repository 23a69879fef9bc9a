-- ===== src/App/Service/Recording/Effect.antt =====
-- RecordTransaction as a whole: what it has done to the accounts, on success and on failure.
use ledger_engine.Prelude.{
  ℕ, ◌+◌, ◌≡◌, refl, sym, ◌∙◌, ap, inl, inr, List, [], ◌∷◌, map, All, true, arith,
}
use mathlib.Core.List.{append-nil}
use ledger_engine.Errors.{Result-cases, ok}
use ledger_engine.Exec.{pure, ◌>>◌, lift, continue}
use ledger_engine.Exec.Rules.{
  Outcome, Outcome-call, Outcome-continue, Outcome-mono, Outcome-ok, Outcome-err,
}
use ledger_engine.Ledger.Money.{new_money, is_valid_currency}
use ledger_engine.Ledger.Entry.{EntryParams}
use ledger_engine.Ledger.Transaction.{Transaction, new_transaction}
use ledger_engine.Ledger.Transaction.Creation.{Records, new_transaction-Records}
use ledger_engine.App.Commands.{EntryCmd, RecordTransactionCmd}
use ledger_engine.App.Ports.{LedgerService}
use ledger_engine.App.Contract.{Accounts, Contract}
use ledger_engine.App.Contract.Effects.{Moved, StoppedWithin, IsSound, Moved-none}
use ledger_engine.App.Service.Params.{entry_params}
use ledger_engine.App.Service.Recording.{record_entries, publish_transaction, record_transaction}
use ledger_engine.App.Service.Recording.Entries.{record_entries-Outcome}
use ledger_engine.App.Service.Recording.Publishing.{
  new_transaction-keeps, publish_transaction-keeps,
}

-- The entry that a command asks for.
abbrev pub requested : EntryCmd → EntryParams
requested e = record {
  account_id = e.account_id;
  amount = record { amount = e.amount; currency = e.currency };
  type = e.type;
}

-- The loop over the command's entries accepts known currencies alone, and changes nothing else.
pub entry_params-requested :
    (i : ℕ) (es : List EntryCmd) (ps : List EntryParams)
    → entry_params i es ≡ ok ps
    → (ps ≡ map requested es) × All (λ (e : EntryCmd). is_valid_currency e.currency ≡ true) es
unfolding entry_params new_money
entry_params-requested i [] ps h = ground arith
entry_params-requested i (e ∷ es) ps h = elim (Result-cases (entry_params (i + 1) es)) [
  | inl (rest, q) ↦ ground (arith, q, entry_params-requested (i + 1) es rest q)
  | inr (x, q) ↦ ground (arith, q)
]

module _ {S : Type 0} (svc : LedgerService S) (c : Contract svc) where
  open c use {view}

  -- What RecordTransaction does to the accounts if it succeeds.
  pub record Recorded (cmd : RecordTransactionCmd) (tx : Transaction) (v v' : Accounts)
      : Type 0 where
    pub sound : IsSound v'
    pub moved : Moved (map requested cmd.entries) v v'
    pub records : Records svc.env (map requested cmd.entries) cmd.description tx

  -- And if it fails: some of its first entries may have been applied, and stay so.
  pub record Stopped (cmd : RecordTransactionCmd) (v v' : Accounts) : Type 0 where
    pub sound : IsSound v'
    pub within : StoppedWithin (map requested cmd.entries) v v'

  untouched : (cmd : RecordTransactionCmd) {v v' : Accounts} → IsSound v → v' ≡ v → Stopped cmd v v'
  untouched cmd sound same = rw same (record {
    sound = sound;
    within = record {
      done = [];
      left = map requested cmd.entries;
      split = refl;
      moved = Moved-none sound;
    };
  })

  -- The balances, once the transaction is made.
  record_balances :
      (cmd : RecordTransactionCmd) (tx : Transaction) (s : S)
      → IsSound (view s)
      → Records svc.env (map requested cmd.entries) cmd.description tx
      → Outcome
          (λ _ s'. Recorded cmd tx (view s) (view s'))
          (λ s'. Stopped cmd (view s) (view s'))
          (record_entries svc tx.entries s)
  record_balances cmd tx s sound records =
      Outcome-mono _ _ _ _ (record_entries svc tx.entries s)
        (λ _ s' h. record {
          sound = h.0;
          moved = rw records.entries_match at h.1;
          records = records;
        })
        (λ s' h. record { sound = h.0; within = rw records.entries_match at h.1 })
        (record_entries-Outcome svc c tx.entries s sound)

  -- Nothing is left to be applied.
  Recorded-Stopped :
      (cmd : RecordTransactionCmd) (tx : Transaction) {v v' : Accounts}
      → Recorded cmd tx v v'
      → Stopped cmd v v'
  Recorded-Stopped cmd tx r = record {
    sound = r.sound;
    within = record {
      done = map requested cmd.entries;
      left = [];
      split = append-nil _;
      moved = r.moved;
    };
  }

  record_created :
      (cmd : RecordTransactionCmd) (tx : Transaction) (s : S)
      → IsSound (view s)
      → Records svc.env (map requested cmd.entries) cmd.description tx
      → Outcome
          (λ tx' s'. Recorded cmd tx' (view s) (view s'))
          (λ s'. Stopped cmd (view s) (view s'))
          (continue
            (record_entries svc tx.entries s)
            (λ _. publish_transaction svc tx cmd.description >> pure tx))
  record_created cmd tx s sound records =
      let balances = record_balances cmd tx s sound records in
      Outcome-continue _ _ (record_entries svc tx.entries s) _
        (λ _ s₁ p.
          let recorded = Outcome-ok _ _ (record_entries svc tx.entries s) p balances in
          let keeps = publish_transaction-keeps svc c tx cmd.description s₁ in
          Outcome-continue _ _ (publish_transaction svc tx cmd.description s₁) _
            (λ _ s₂ q. rw (rw q at keeps) recorded)
            (λ x s₂ q. rw (rw q at keeps) (Recorded-Stopped cmd tx recorded)))
        (λ x s₁ p. Outcome-err _ _ (record_entries svc tx.entries s) p balances)

  -- For repositories that fulfil the contract of the services, as the in-memory ones do: on a
  -- sound ledger, whose accounts are valid and stored under their ids, RecordTransaction leaves
  -- a sound ledger. If it succeeds, every account has moved by the net of the command's entries
  -- on it, and the transaction records those entries and is booked by the double-entry rule. If
  -- it fails, the effect on the accounts is that of some first entries of the command, possibly
  -- none.
  pub record_transaction-Outcome :
      (cmd : RecordTransactionCmd) (s : S)
      → IsSound (view s)
      → Outcome
          (λ tx s'. Recorded cmd tx (view s) (view s'))
          (λ s'. Stopped cmd (view s) (view s'))
          (record_transaction svc cmd s)
  unfolding record_transaction
  record_transaction-Outcome cmd s sound =
      Outcome-continue _ _ (lift (entry_params 0 cmd.entries) s) _
        (λ ps s₁ p.
          let asked = (entry_params-requested 0 cmd.entries ps (ap (λ r. r.0) p)).0 in
          let start : view s₁ ≡ view s = ap (λ r. view r.1) (sym p) in
          let creation = new_transaction svc.env ps cmd.description s₁ in
          let keeps = new_transaction-keeps svc c ps cmd.description s₁ in
          let made = new_transaction-Records svc.env ps cmd.description s₁ in
          Outcome-call _ _ "create transaction" creation _
            (λ tx s₂ q.
              let same : view s₂ ≡ view s = (rw q at keeps) ∙ start in
              let records = Outcome-ok _ _ creation q made in
              rw (← same) (record_created cmd tx s₂ (rw same sound) (rw asked at records)))
            (λ x s₂ q. untouched cmd sound ((rw q at keeps) ∙ start)))
        (λ x s₁ p. untouched cmd sound (ap (λ r. view r.1) (sym p)))
