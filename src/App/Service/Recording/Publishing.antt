-- ===== src/App/Service/Recording/Publishing.antt =====
-- The parts of RecordTransaction that create the transaction and emit its event, and the stored
-- accounts.
use ledger_engine.Prelude.{⊤, ◌≡◌, refl, ◌∙◌, String, Option, none, some, List, [], ◌∷◌}
use ledger_engine.Prelude.Int64.{Int64}
use ledger_engine.Environment.{Time}
use ledger_engine.Errors.{Result, ok, err}
use ledger_engine.Exec.{Exec, lift, prefixed, continue}
use ledger_engine.Ledger.Identifiers.{generate_entry_id, generate_transaction_id}
use ledger_engine.Ledger.Entry.{EntryParams, new_entry}
use ledger_engine.Ledger.Transaction.{Transaction, check_params, new_entries, new_transaction}
use ledger_engine.Ledger.Event.{
  AccountOpenedEvent, TransactionRecordedEvent, DomainEvent, StoredEvent, EventStore,
}
use ledger_engine.App.Ports.{OutboxAppender, Projector, LedgerService}
use ledger_engine.App.Contract.{
  Accounts, KeepsView, OutboxKeeps, EventsKeep, ProjectorKeeps, Contract,
}
use ledger_engine.App.Service.Accounts.{append_to, append_event, ignoring}
use ledger_engine.App.Service.Recording.{publish_transaction}

module _ {S : Type 0} (view : S → Accounts) where
  -- What follows a call keeps the view that the call left.
  pub view-continue :
      {A B : Type 0} (r : Result A × S) (f : A → Exec S B)
      → ((a : A) → KeepsView view (f a))
      → view (continue r f).1 ≡ view r.1
  view-continue (ok a, s) f k = k a s
  view-continue (err e, s) f k = refl

  pub view-prefixed :
      {A : Type 0} (prefix : String) (r : Result A × S) → view (prefixed prefix r).1 ≡ view r.1
  view-prefixed prefix (ok a, s) = refl
  view-prefixed prefix (err e, s) = refl

module _ {S : Type 0} (svc : LedgerService S) (c : Contract svc) where
  open c use {view}

  new_entries-keeps :
      (ps : List EntryParams) (now : Time) → KeepsView view (new_entries svc.env ps now)
  unfolding new_entries new_entry generate_entry_id
  new_entries-keeps [] now s = refl
  new_entries-keeps (p ∷ ps) now s =
      view-continue view (new_entries svc.env ps now (svc.env.new_uuid s).1) _ (λ _ s'. refl)
      ∙ new_entries-keeps ps now (svc.env.new_uuid s).1
      ∙ c.uuid_keeps s

  pub new_transaction-keeps :
      (ps : List EntryParams) (description : String)
      → KeepsView view (new_transaction svc.env ps description)
  unfolding new_transaction generate_transaction_id
  new_transaction-keeps ps description s = view-continue view (lift (check_params ps) s) _ (λ _ s'.
      view-continue view (new_entries svc.env ps (svc.env.now s').0 (svc.env.now s').1) _
        (λ _ s''. c.uuid_keeps s'')
      ∙ new_entries-keeps ps (svc.env.now s').0 (svc.env.now s').1
      ∙ c.now_keeps s')

  append_to-keeps :
      (o : Option (OutboxAppender S)) (e : Option (EventStore S)) (id type : String)
      (version : Int64) (events : List StoredEvent)
      → OutboxKeeps view o
      → EventsKeep view e
      → KeepsView view (append_to svc o e id type version events)
  unfolding append_to
  append_to-keeps (some o) e id type version events ko ke s = ko id type version events s
  append_to-keeps none (some e) id type version events ko ke s = ke id type version events s
  append_to-keeps none none id type version events ko ke s = refl

  pub append_event-keeps :
      (id type : String) (version : Int64) (event : DomainEvent)
      → KeepsView view (append_event svc id type version event)
  unfolding append_event
  append_event-keeps id type version event s =
      view-continue view (prefixed "marshal event" (svc.marshal event, s)) _ (λ payload s'.
        append_to-keeps svc.outbox svc.event_store id type version _ c.outbox_keeps c.events_keep
          s')
      ∙ view-prefixed view "marshal event" (svc.marshal event, s)

  projection-keeps :
      (call : Projector S → Exec S ⊤) (p : Option (Projector S))
      → ((q : Projector S) → p ≡ some q → KeepsView view (call q))
      → KeepsView view (ignoring svc call p)
  projection-keeps call none k s = refl
  projection-keeps call (some q) k s = k q refl s

  projector_at :
      (p : Option (Projector S)) (q : Projector S)
      → ProjectorKeeps view p
      → p ≡ some q
      → ProjectorKeeps view (some q)
  projector_at p q k e = rw e at k

  pub project_transaction_recorded-keeps :
      (event : TransactionRecordedEvent)
      → KeepsView view (ignoring svc (λ q. q.project_transaction_recorded event) svc.projector)
  project_transaction_recorded-keeps event =
      projection-keeps (λ q. q.project_transaction_recorded event) svc.projector
        (λ q e. (projector_at svc.projector q c.projector_keeps e).1 event)

  pub project_account_opened-keeps :
      (event : AccountOpenedEvent)
      → KeepsView view (ignoring svc (λ q. q.project_account_opened event) svc.projector)
  project_account_opened-keeps event =
      projection-keeps (λ q. q.project_account_opened event) svc.projector
        (λ q e. (projector_at svc.projector q c.projector_keeps e).0 event)

  pub publish_transaction-keeps :
      (tx : Transaction) (description : String)
      → KeepsView view (publish_transaction svc tx description)
  unfolding publish_transaction
  publish_transaction-keeps tx description s =
      view-continue view (prefixed "save transaction" (svc.transactions.save tx s)) _ (λ _ s'.
        view-continue view
          (prefixed "emit transaction recorded" (append_event svc _ _ _ _ (svc.env.now s').1)) _
          (λ _. project_transaction_recorded-keeps _)
        ∙ view-prefixed view _ (append_event svc _ _ _ _ (svc.env.now s').1)
        ∙ append_event-keeps _ _ _ _ (svc.env.now s').1
        ∙ c.now_keeps s')
      ∙ view-prefixed view "save transaction" (svc.transactions.save tx s)
      ∙ c.transactions_keep tx s
