-- ===== src/Program/Recording.antt =====
-- RecordTransaction over PostgreSQL, from its entries to the projection.
use ledger_engine.Prelude.{⊤, ◌≡◌, refl, sym, ap, ◌∙◌, String, List, map}
use ledger_engine.Prelude.Int64.{Int64}
use ledger_engine.Environment.{Time, UuidLib, Env}
use ledger_engine.Errors.{Result, ok, err}
use ledger_engine.Exec.{lift, pure, continue, ◌>>◌}
use ledger_engine.Exec.Rules.{
  Outcome, Outcome-call, Outcome-continue, Outcome-ok, Outcome-err, Outcome-mono,
}
use ledger_engine.Exec.Keeping.{Keeps, call-Keeps}
use ledger_engine.Ledger.Identifiers.{transaction_id_string}
use ledger_engine.Ledger.Event.{
  DomainEvent, Payload, StoredEvent, TransactionRecordedEvent, transaction_recorded,
}
use ledger_engine.Ledger.Entry.{EntryParams}
use ledger_engine.Ledger.Transaction.{Transaction, new_transaction}
use ledger_engine.Ledger.Transaction.Spec.{params_of}
use ledger_engine.Ledger.Transaction.Creation.{Records, new_transaction-Records}
use ledger_engine.Ledger.Transaction.Keeping.{new_transaction-Keeps}
use ledger_engine.App.Commands.{RecordTransactionCmd}
use ledger_engine.App.Ports.{LedgerService}
use ledger_engine.App.Service.Accounts.{append_event, append_to}
use ledger_engine.App.Service.Params.{entry_params}
use ledger_engine.App.Service.Recording.{
  entry_event_data, record_entries, publish_transaction, record_transaction,
}
use ledger_engine.App.Service.Recording.Effect.{requested, entry_params-requested}
use ledger_engine.InMemory.{World, MapOrder, save_transaction}
use ledger_engine.Postgres.Tables.{Tables, Db}
use ledger_engine.Postgres.Server.{Server}
use ledger_engine.Postgres.Accounts.Balances.{AreWide}
use ledger_engine.Postgres.Outbox.{append_with_outbox}
use ledger_engine.Postgres.Outbox.Appending.{Doubled, append_with_outbox-Outcome}
use ledger_engine.Projection.{project_transaction_recorded}
use ledger_engine.Program.{Process, service}
use ledger_engine.Program.Columns.{SameReadModel, same_read_model, SameReadModel-trans, Posted}
use ledger_engine.Program.Posting.{record_entries-Posted}

-- The accounts and the read model are as they were.
pub record Untouched (t t' : Tables) : Type 0 where
  pub accounts : t'.accounts ≡ t.accounts
  pub read : SameReadModel t t'

module _ (pg : Server) (u : UuidLib) where
  append_with_outbox-Untouched :
      (t : Tables) (aggregate type : String) (version : Int64) (events : List StoredEvent) (db : Db)
      → Untouched t db.tables
      → Untouched t (append_with_outbox pg aggregate type version events db).1.tables
  append_with_outbox-Untouched t aggregate type version events db h =
      of_result (append_with_outbox pg aggregate type version events db)
        (append_with_outbox-Outcome pg aggregate type version events db)
    where
      of_result :
          (r : Result ⊤ × Db)
          → Outcome
              (λ _ s'. Doubled pg aggregate type version 0 events db.tables s'.tables)
              (λ s'. s'.tables ≡ db.tables)
              r
          → Untouched t r.1.tables
      of_result (ok _, db') d = rw d.tables (record {
        accounts = h.accounts;
        read = record { balances = h.read.balances; history = h.read.history };
      })
      of_result (err e, db') same = rw same h

  -- What PublishTransaction gives the projector.
  abbrev pub recorded_event : Transaction → String → Time → TransactionRecordedEvent
  recorded_event tx description now = record {
    id = "";
    transaction_id = transaction_id_string u tx.id;
    entries = map (entry_event_data u) tx.entries;
    description = description;
    timestamp = now;
  }

  -- The state is what the projection of the transaction leaves of a database whose accounts have
  -- moved by `ps` and whose read model is as it was.
  pub record Settled (tx : Transaction) (description : String) (t : Tables) (db' : Db)
      : Type 0 where
    pub posted : Db
    pub now : Time
    pub accounts : Posted pg u (map params_of tx.entries) t posted.tables
    pub projected :
        db' ≡ (project_transaction_recorded pg (recorded_event tx description now) posted).1

module _ (pg : Server) (u : UuidLib) (order : MapOrder) (env : Env World)
    (marshal : DomainEvent → Result Payload) where
  abbrev svc : LedgerService Process
  svc = service pg u order env marshal

  append_event-Untouched :
      (t : Tables) (id type : String) (version : Int64) (event : DomainEvent)
      → Keeps (λ (s : Process). Untouched t s.db.tables) (append_event svc id type version event)
  unfolding append_event append_to service
  append_event-Untouched t id type version event s h =
      call-Keeps (λ (s' : Process). Untouched t s'.db.tables) "marshal event" (svc.marshal event, s)
        _ h (λ payload s' h'. append_with_outbox-Untouched pg u t id type version _ s'.db h')

  abbrev Published : Transaction → String → Tables → Db → Type 0
  Published tx description t db' =
      (db : Db) × (now : Time) × Untouched t db.tables
      × (db' ≡ (project_transaction_recorded pg (recorded_event pg u tx description now) db).1)

  publish_transaction-Published :
      (tx : Transaction) (description : String) (s : Process)
      → Outcome
          (λ _ s'. Published tx description s.db.tables s'.db)
          (λ s'. Untouched s.db.tables s'.db.tables)
          (publish_transaction svc tx description s)
  unfolding publish_transaction service save_transaction
  publish_transaction-Published tx description s =
      let s₁ = (svc.transactions.save tx s).1 in
      let now = (svc.env.now s₁).0 in
      let s₂ = (svc.env.now s₁).1 in
      let untouched =
        append_event-Untouched s.db.tables (transaction_id_string u tx.id) "transaction" 0
          (transaction_recorded (recorded_event pg u tx description now)) s₂
          (record { accounts = refl; read = record { balances = refl; history = refl } }) in
      Outcome-call _ _ _ (append_event svc _ _ _ _ s₂) _
        (λ _ s₃ p. (s₃.db, now, rw p at untouched, refl)) (λ x s₃ p. rw p at untouched)

  Untouched-Settled :
      (tx : Transaction) (description : String) (t t₁ : Tables) (db' : Db)
      → Posted pg u (map params_of tx.entries) t t₁
      → Published tx description t₁ db'
      → Settled pg u tx description t db'
  Untouched-Settled tx description t t₁ db' posted (db, now, same, e) = record {
    posted = db;
    now = now;
    accounts = record {
      read = SameReadModel-trans t t₁ db.tables posted.read same.read;
      wide = rw same.accounts posted.wide;
      moved = rw same.accounts posted.moved;
    };
    projected = e;
  }

  record_created :
      (tx : Transaction) (description : String) (s : Process)
      → AreWide s.db.tables.accounts
      → Outcome
          (λ tx' s'. (tx' ≡ tx) × Settled pg u tx description s.db.tables s'.db)
          (λ s'. SameReadModel s.db.tables s'.db.tables)
          (continue
            (record_entries svc tx.entries s)
            (λ _. publish_transaction svc tx description >> pure tx))
  record_created tx description s wide =
      Outcome-continue _ _ (record_entries svc tx.entries s) _
        (λ _ s₁ p.
          let posted : Posted pg u (map params_of tx.entries) s.db.tables s₁.db.tables =
            Outcome-ok _ _ (record_entries svc tx.entries s) p
              (record_entries-Posted pg u order env marshal tx.entries s wide) in
          let published = publish_transaction-Published tx description s₁ in
          Outcome-continue _ _ (publish_transaction svc tx description s₁) _
            (λ _ s₂ q. (
              refl,
              Untouched-Settled tx description _ _ _ posted
                  (Outcome-ok _ _ (publish_transaction svc tx description s₁) q published),
            ))
            (λ x s₂ q.
              SameReadModel-trans _ _ _ posted.read
                (Outcome-err _ _ (publish_transaction svc tx description s₁) q published).read))
        (λ x s₁ p.
          Outcome-err _ _ (record_entries svc tx.entries s) p
            (record_entries-Posted pg u order env marshal tx.entries s wide))

  creation_keeps :
      (ps : List EntryParams) (description : String) (s : Process)
      → (new_transaction svc.env ps description s).1.db ≡ s.db
  unfolding service
  creation_keeps ps description s =
      new_transaction-Keeps (λ (s' : Process). s'.db ≡ s.db) svc.env (λ s' h. h) (λ s' h. h) ps
        description s refl

  pub record_transaction-Settled :
      (cmd : RecordTransactionCmd) (s : Process)
      → AreWide s.db.tables.accounts
      → Outcome
          (λ tx s'.
            (map params_of tx.entries ≡ map requested cmd.entries)
            × Settled pg u tx cmd.description s.db.tables s'.db)
          (λ s'. SameReadModel s.db.tables s'.db.tables)
          (record_transaction svc cmd s)
  unfolding record_transaction
  record_transaction-Settled cmd s wide =
      Outcome-continue _ _ (lift (entry_params 0 cmd.entries) s) _
        (λ ps s₁ p.
          let asked = (entry_params-requested 0 cmd.entries ps (ap (λ r. r.0) p)).0 in
          let start : s₁.db ≡ s.db = ap (λ r. r.1.db) (sym p) in
          let creation = new_transaction svc.env ps cmd.description s₁ in
          let kept : (new_transaction svc.env ps cmd.description s₁).1.db ≡ s.db =
            creation_keeps ps cmd.description s₁ ∙ start in
          Outcome-call _ _ "create transaction" creation _
            (λ tx s₂ q.
              let same : s₂.db ≡ s.db = ap (λ r. r.1.db) (sym q) ∙ kept in
              let records : Records svc.env ps cmd.description tx =
                Outcome-ok _ _ creation q (new_transaction-Records svc.env ps cmd.description s₁) in
              Outcome-mono
                (λ tx' s'. (tx' ≡ tx) × Settled pg u tx cmd.description s₂.db.tables s'.db)
                (λ s'. SameReadModel s₂.db.tables s'.db.tables) _ _ _
                (λ tx' s' h. rw h.0 (records.entries_match ∙ asked, rw same at h.1))
                (λ s' h. rw same at h) (record_created tx cmd.description s₂ (rw same wide)))
            (λ x s₂ q.
              same_read_model _ _ (ap (λ (db : Db). db.tables) (ap (λ r. r.1.db) (sym q) ∙ kept))))
        (λ x s₁ p. same_read_model _ _ (ap (λ r. r.1.db.tables) (sym p)))
