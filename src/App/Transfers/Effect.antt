-- ===== src/App/Transfers/Effect.antt =====
-- Execute of internal/app/transfer_service.go: every way in which a transfer ends, with the state of
-- the saga and what has been done to the accounts.
use ledger_engine.Prelude.{◌≡◌, refl, ◌∙◌, inl, inr, Bool-cases, List, map}
use ledger_engine.Errors.{Error, Result, ok, err}
use ledger_engine.Exec.Rules.{Outcome}
use ledger_engine.Ledger.Money.{Money, new_money}
use ledger_engine.Ledger.Identifiers.{AccountId, equals}
use ledger_engine.Ledger.Entry.{EntryParams}
use ledger_engine.Ledger.Transaction.{Transaction}
use ledger_engine.Transfer.{
  initiated, debited, failed, Transfer, new_transfer, mark_debited, mark_completed, mark_failed,
  mark_compensated,
}
use ledger_engine.App.Commands.{RecordTransactionCmd, TransferCmd}
use ledger_engine.App.Ports.{LedgerService}
use ledger_engine.App.Contract.{Accounts, Contract}
use ledger_engine.App.Contract.Listing.{Listing}
use ledger_engine.App.Contract.Effects.{IsSound}
use ledger_engine.App.Invariants.Services.{record_transaction-Keeps, suspense_account_id-Keeps}
use ledger_engine.App.Service.Lookup.{Found, suspense_name, suspense_account_id-Found}
use ledger_engine.App.Service.Recording.{record_transaction}
use ledger_engine.App.Service.Recording.Effect.{
  requested, Recorded, Stopped, record_transaction-Outcome,
}
use ledger_engine.App.Transfers.{
  Answer, out_leg, in_leg, back_leg, recording, after_compensation, compensate, after_credit,
  credit_destination, after_mark, after_debit, debit_source, after_creation, after_money, execute,
}
use ledger_engine.App.Transfers.Legs.{
  hop_out, hop_in, hop_back, LegDone, LegStopped, Verdict, rejected, source_failed, finished,
  undone, stuck,
}

module _ {S : Type 0} (svc : LedgerService S) (c : Contract svc) (l : Listing svc c) where
  open c use {view}

  -- The ledger is sound, and what FindAll relies on holds.
  abbrev pub IsReady : S → Type 0
  IsReady s = IsSound (view s) × l.Holds s

  pub recording-Outcome :
      (cmd : TransferCmd) (command : AccountId → RecordTransactionCmd)
      (hops : AccountId → List EntryParams) (s : S)
      → ((id : AccountId) → map requested (command id).entries ≡ hops id)
      → IsReady s
      → Outcome
          (λ _ s'. IsReady s' × LegDone svc c cmd hops (view s) (view s'))
          (λ s'. IsReady s' × LegStopped svc c cmd hops (view s) (view s'))
          (recording svc cmd command s)
  unfolding recording
  recording-Outcome cmd command hops s asks (sound, holds) =
      let (id, s₁, run, found, _) = suspense_account_id-Found svc c l cmd.currency s holds in
      let looked : l.Holds s₁ =
        rw run at (suspense_account_id-Keeps l.upheld cmd.currency s holds) in
      rw run (
        of_result id s₁ found (record_transaction svc (command id) s₁)
          (record_transaction-Keeps l.upheld (command id) s₁ looked)
          (record_transaction-Outcome svc c (command id) s₁ (found.looked.sound sound)))
    where
      of_result :
          (id : AccountId) (s₁ : S)
          → Found svc c (suspense_name cmd.currency) (view s) (view s₁) id
          → (r : Result Transaction × S) → l.Holds r.1
          → Outcome
              (λ tx s'. Recorded svc c (command id) tx (view s₁) (view s'))
              (λ s'. Stopped svc c (command id) (view s₁) (view s'))
              r
          → Outcome
              (λ _ s'. IsReady s' × LegDone svc c cmd hops (view s) (view s'))
              (λ s'. IsReady s' × LegStopped svc c cmd hops (view s) (view s'))
              r
      of_result id s₁ found (ok tx, s') holds r = (
        (r.sound, holds),
        record { suspense = id; between = view s₁; found = found; moved = rw (asks id) at r.moved },
      )
      of_result id s₁ found (err e, s') holds r = (
        (r.sound, holds),
        record {
          suspense = id;
          between = view s₁;
          found = found;
          within = rw (asks id) at r.within;
        },
      )

module _ {S : Type 0} (svc : LedgerService S) (c : Contract svc) (l : Listing svc c)
    (cmd : TransferCmd) (v : Accounts) where
  open c use {view}

  abbrev Ends : Answer S → Type 0
  Ends (t, e, s) = IsReady svc c l s × Verdict svc c cmd v (view s) t e

  abbrev LegOutcome : (AccountId → List EntryParams) → Accounts → Result Transaction × S → Type 0
  LegOutcome hops v₁ =
      Outcome (λ _ s'. IsReady svc c l s' × LegDone svc c cmd hops v₁ (view s'))
        (λ s'. IsReady svc c l s' × LegStopped svc c cmd hops v₁ (view s'))

  ticks : (s : S) → view (svc.env.now (svc.env.now s).1).1 ≡ view s
  ticks s = c.now_keeps (svc.env.now s).1 ∙ c.now_keeps s

  leg_from :
      (command : AccountId → RecordTransactionCmd) (hops : AccountId → List EntryParams) (s : S)
      (v₁ : Accounts)
      → ((id : AccountId) → map requested (command id).entries ≡ hops id)
      → view s ≡ v₁
      → IsReady svc c l s
      → LegOutcome hops v₁ (recording svc cmd command s)
  leg_from command hops s v₁ asks e ready =
      rw (← e) (recording-Outcome svc c l cmd command hops s asks ready)

  ticked : (s : S) → IsReady svc c l s → IsReady svc c l (svc.env.now (svc.env.now s).1).1
  ticked s (sound, holds) =
      (rw (ticks s) sound, l.upheld.now (svc.env.now s).1 (l.upheld.now s holds))

  after_compensation-Ends :
      (e : Error) (t : Transfer) (v₁ v₂ : Accounts) (r : Result Transaction × S)
      → t.state ≡ failed
      → LegDone svc c cmd (hop_out cmd) v v₁
      → LegStopped svc c cmd (hop_in cmd) v₁ v₂
      → LegOutcome (hop_back cmd) v₂ r
      → Ends (after_compensation svc e t r)
  unfolding after_compensation mark_compensated
  after_compensation-Ends e t v₁ v₂ (err x, s) f out inn (ready, back) =
      (ready, stuck t _ v₁ v₂ f out inn back)
  after_compensation-Ends e t v₁ v₂ (ok _, s) f out inn (ready, back) =
      (ticked s ready, rw (ticks s) (undone _ _ v₁ v₂ refl out inn back))

  after_credit-Ends :
      (t : Transfer) (v₁ : Accounts) (r : Result Transaction × S)
      → t.state ≡ debited
      → LegDone svc c cmd (hop_out cmd) v v₁
      → LegOutcome (hop_in cmd) v₁ r
      → Ends (after_credit svc cmd t r)
  unfolding after_credit mark_completed mark_failed compensate
  after_credit-Ends t v₁ (err x, s) d out (ready, inn) =
      after_compensation-Ends x _ v₁ (view s) _ refl out inn
        (leg_from (back_leg cmd) (hop_back cmd) _ (view s) (λ id. refl) (ticks s) (ticked s ready))
  after_credit-Ends t v₁ (ok _, s) d out (ready, inn) =
      rw d (ticked s ready, rw (ticks s) (finished _ v₁ refl out inn))

  after_debit-Ends :
      (t : Transfer) (r : Result Transaction × S)
      → t.state ≡ initiated
      → LegOutcome (hop_out cmd) v r
      → Ends (after_debit svc cmd t r)
  unfolding after_debit after_mark mark_debited mark_failed credit_destination
  after_debit-Ends t (err x, s) i (ready, out) =
      (ticked s ready, rw (ticks s) (source_failed _ _ refl out))
  after_debit-Ends t (ok _, s) i (ready, out) = rw i (
      after_credit-Ends _ (view s) _ refl out
        (leg_from (in_leg cmd) (hop_in cmd) _ (view s) (λ id. refl) (ticks s) (ticked s ready)))

  after_money-Ends :
      (r : Result Money) (s : S) → view s ≡ v → IsReady svc c l s → Ends (after_money svc cmd r s)
  unfolding after_money after_creation new_transfer debit_source
  after_money-Ends (err e) s same ready = (ready, rejected _ same)
  after_money-Ends (ok money) s same (sound, holds) =
      let kept =
        c.now_keeps (svc.env.new_uuid (svc.env.now s).1).1
        ∙ c.uuid_keeps (svc.env.now s).1
        ∙ c.now_keeps s in
      elim (Bool-cases (equals cmd.from_account_id cmd.to_account_id)) [
        | inl self ↦ rw self ((sound, holds), rejected _ same)
        | inr other ↦ rw other (
            after_debit-Ends _ _ refl (
              leg_from (out_leg cmd) (hop_out cmd) _ v (λ id. refl) (kept ∙ same)
                (rw kept sound, l.upheld.now _ (l.upheld.new_uuid _ (l.upheld.now s holds)))))
      ]

module _ {S : Type 0} (svc : LedgerService S) (c : Contract svc) where
  open c use {view}

  pub execute-Verdict :
      (l : Listing svc c) (cmd : TransferCmd) (s : S)
      → l.Holds s
      → IsSound (view s)
      → IsSound (view (execute svc cmd s).2)
        × Verdict svc c cmd
            (view s)
            (view (execute svc cmd s).2)
            (execute svc cmd s).0
            (execute svc cmd s).1
  unfolding execute
  execute-Verdict l cmd s holds sound =
      let ((sound', _), verdict) =
        after_money-Ends svc c l cmd (view s) (new_money cmd.amount cmd.currency) s refl
          (sound, holds) in
      (sound', verdict)
