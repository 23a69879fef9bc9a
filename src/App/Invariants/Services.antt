-- ===== src/App/Invariants/Services.antt =====
-- LedgerService of internal/app/ledger_service.go.
use ledger_engine.Prelude.{
  ⊤, ◌≡◌, refl, String, str_eq, Bool-cases, inl, inr, Option, none, some, List, [], ◌∷◌,
}
use ledger_engine.Prelude.Int64.{Int64}
use ledger_engine.Errors.{Result, ok, err}
use ledger_engine.Exec.{Exec, lift}
use ledger_engine.Exec.Keeping.{Keeps, continue-Keeps, prefixed-Keeps, call-Keeps}
use ledger_engine.Ledger.Money.{Currency, new_money}
use ledger_engine.Ledger.Identifiers.{AccountId, generate_account_id}
use ledger_engine.Ledger.Entry.{Entry}
use ledger_engine.Ledger.Event.{
  AccountOpenedEvent, TransactionRecordedEvent, DomainEvent, StoredEvent, EventStore,
}
use ledger_engine.Ledger.Transaction.{Transaction, new_transaction}
use ledger_engine.Ledger.Transaction.Keeping.{new_transaction-Keeps}
use ledger_engine.Account.{Account, AccountType, new_account_with_type}
use ledger_engine.App.Commands.{OpenAccountCmd, RecordTransactionCmd}
use ledger_engine.App.Ports.{OutboxAppender, Projector, LedgerService}
use ledger_engine.App.Service.Accounts.{
  append_to, append_event, ignoring, open_account, or_open, find_named,
  get_or_create_system_account, get_or_create_system_equity, id_or_zero, suspense_account_id,
}
use ledger_engine.App.Service.Params.{entry_params, apply_entry}
use ledger_engine.App.Service.Recording.{
  record_entry, record_entries, publish_transaction, record_transaction, deposit,
}
use ledger_engine.App.Invariants.{AppendsUphold, ProjectorUpholds, Upholds}

module _ {S : Type 0} {svc : LedgerService S} {P : S → Type 0} (keeps : Upholds P svc) where
  append_to-Keeps :
      (o : Option (OutboxAppender S)) (e : Option (EventStore S)) (id type : String)
      (version : Int64) (events : List StoredEvent)
      → AppendsUphold P o e
      → Keeps P (append_to svc o e id type version events)
  unfolding append_to
  append_to-Keeps (some o) e id type version events k s h = k id type version events s h
  append_to-Keeps none (some e) id type version events k s h = k id type version events s h
  append_to-Keeps none none id type version events k s h = h

  pub append_event-Keeps :
      (id type : String) (version : Int64) (event : DomainEvent)
      → Keeps P (append_event svc id type version event)
  unfolding append_event
  append_event-Keeps id type version event s h =
      call-Keeps P "marshal event" (svc.marshal event, s) _ h
        (λ payload. append_to-Keeps svc.outbox svc.event_store id type version _ keeps.appends)

  ignoring-Keeps :
      (call : Projector S → Exec S ⊤) (p : Option (Projector S))
      → ((q : Projector S) → p ≡ some q → Keeps P (call q))
      → Keeps P (ignoring svc call p)
  ignoring-Keeps call none k s h = h
  ignoring-Keeps call (some q) k s h = k q refl s h

  projector_at :
      (p : Option (Projector S)) (q : Projector S)
      → ProjectorUpholds P p
      → p ≡ some q
      → ProjectorUpholds P (some q)
  projector_at p q k e = rw e at k

  project_transaction_recorded-Keeps :
      (event : TransactionRecordedEvent)
      → Keeps P (ignoring svc (λ q. q.project_transaction_recorded event) svc.projector)
  project_transaction_recorded-Keeps event =
      ignoring-Keeps (λ q. q.project_transaction_recorded event) svc.projector
        (λ q e. (projector_at svc.projector q keeps.projector e).1 event)

  project_account_opened-Keeps :
      (event : AccountOpenedEvent)
      → Keeps P (ignoring svc (λ q. q.project_account_opened event) svc.projector)
  project_account_opened-Keeps event =
      ignoring-Keeps (λ q. q.project_account_opened event) svc.projector
        (λ q e. (projector_at svc.projector q keeps.projector e).0 event)

  record_entry-Keeps : (e : Entry) → Keeps P (record_entry svc e)
  unfolding record_entry
  record_entry-Keeps e s h =
      call-Keeps P _ (svc.accounts.find_by_id e.account_id s) _ (keeps.find_by_id e.account_id s h)
        (λ a s₁ h₁.
          call-Keeps P _ (apply_entry (svc.env.now s₁).0 a e, (svc.env.now s₁).1) _
            (keeps.now s₁ h₁)
            (λ b s₂ h₂. prefixed-Keeps P _ (svc.accounts.save b s₂) (keeps.save b s₂ h₂)))

  record_entries-Keeps : (es : List Entry) → Keeps P (record_entries svc es)
  unfolding record_entries
  record_entries-Keeps [] s h = h
  record_entries-Keeps (e ∷ es) s h =
      continue-Keeps P (record_entry svc e s) _ (record_entry-Keeps e s h)
        (λ _. record_entries-Keeps es)

  publish_transaction-Keeps :
      (tx : Transaction) (description : String) → Keeps P (publish_transaction svc tx description)
  unfolding publish_transaction
  publish_transaction-Keeps tx description s h =
      call-Keeps P _ (svc.transactions.save tx s) _ (keeps.save_transaction tx s h) (λ _ s₁ h₁.
        call-Keeps P _ (append_event svc _ _ _ _ (svc.env.now s₁).1) _
          (append_event-Keeps _ _ _ _ (svc.env.now s₁).1 (keeps.now s₁ h₁))
          (λ _. project_transaction_recorded-Keeps _))

  pub record_transaction-Keeps : (cmd : RecordTransactionCmd) → Keeps P (record_transaction svc cmd)
  unfolding record_transaction
  record_transaction-Keeps cmd s h =
      continue-Keeps P (lift (entry_params 0 cmd.entries) s) _ h (λ ps s₁ h₁.
        call-Keeps P _ (new_transaction svc.env ps cmd.description s₁) _
          (new_transaction-Keeps P svc.env keeps.now keeps.new_uuid ps cmd.description s₁ h₁)
          (λ tx s₂ h₂.
            continue-Keeps P (record_entries svc tx.entries s₂) _
              (record_entries-Keeps tx.entries s₂ h₂)
              (λ _ s₃ h₃.
                continue-Keeps P (publish_transaction svc tx cmd.description s₃) _
                  (publish_transaction-Keeps tx cmd.description s₃ h₃) (λ _ s₄ h₄. h₄))))

  new_account_with_type-Keeps :
      (name : String) (type : AccountType) (currency : Currency)
      → Keeps P (new_account_with_type svc.env name type currency)
  unfolding new_account_with_type generate_account_id
  new_account_with_type-Keeps name type currency s h = elim (Bool-cases (str_eq name "")) [
    | inl empty ↦ rw empty h
    | inr named ↦ rw named (
        continue-Keeps P (lift (new_money 0 currency) s) _ h
          (λ _ s₁ h₁. keeps.new_uuid (svc.env.now s₁).1 (keeps.now s₁ h₁)))
  ]

  pub open_account-Keeps : (cmd : OpenAccountCmd) → Keeps P (open_account svc cmd)
  unfolding open_account
  open_account-Keeps cmd s h =
      call-Keeps P _ (new_account_with_type svc.env cmd.name _ cmd.currency s) _
        (new_account_with_type-Keeps cmd.name _ cmd.currency s h)
        (λ a s₁ h₁. call-Keeps P _ (svc.accounts.save a s₁) _ (keeps.save a s₁ h₁) (λ _ s₂ h₂.
          call-Keeps P _ (append_event svc _ _ _ _ (svc.env.now s₂).1) _
            (append_event-Keeps _ _ _ _ (svc.env.now s₂).1 (keeps.now s₂ h₂))
            (λ _ s₃ h₃.
              continue-Keeps P (ignoring svc (λ q. q.project_account_opened _) svc.projector s₃) _
                (project_account_opened-Keeps _ s₃ h₃) (λ _ s₄ h₄. h₄))))

  or_open-Keeps : (o : Option Account) (cmd : OpenAccountCmd) → Keeps P (or_open svc o cmd)
  or_open-Keeps none cmd s h = open_account-Keeps cmd s h
  or_open-Keeps (some a) cmd s h = h

  get_or_create_system_account-Keeps :
      (name type : String) (currency : Currency)
      → Keeps P (get_or_create_system_account svc name type currency)
  unfolding get_or_create_system_account
  get_or_create_system_account-Keeps name type currency s h =
      continue-Keeps P (svc.accounts.find_all s) _ (keeps.find_all s h)
        (λ all. or_open-Keeps (find_named name all) _)

  pub suspense_account_id-Keeps : (currency : Currency) → Keeps P (suspense_account_id svc currency)
  unfolding suspense_account_id
  suspense_account_id-Keeps currency s h =
      of_result (get_or_create_system_account svc _ _ currency s)
        (get_or_create_system_account-Keeps _ _ currency s h)
    where
      of_result : (r : Result Account × S) → P r.1 → P (id_or_zero svc r).1
      of_result (ok a, s') h' = h'
      of_result (err e, s') h' = h'

  pub deposit-Keeps :
      (id : AccountId) (amount : Int64) (currency : Currency) (description : String)
      → Keeps P (deposit svc id amount currency description)
  unfolding deposit get_or_create_system_equity
  deposit-Keeps id amount currency description s h =
      call-Keeps P _ (get_or_create_system_account svc _ _ currency s) _
        (get_or_create_system_account-Keeps _ _ currency s h)
        (λ equity s₁ h₁.
          continue-Keeps P (record_transaction svc _ s₁) _ (record_transaction-Keeps _ s₁ h₁)
            (λ _ s₂ h₂. h₂))
