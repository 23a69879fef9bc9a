-- ===== src/Program/Sync.antt =====
-- The balances that the API returns, which the read model keeps, and those of the accounts.
use ledger_engine.Prelude.{
  ⊤, ◌≡◌, refl, sym, ap, ◌∙◌, ◌⊎◌, inl, inr, str_eq, String, some, Option-cases, List, [], ◌∷◌, map,
  arith,
}
use ledger_engine.Prelude.Int64.{Int64, IsInt64, neg64}
use ledger_engine.Environment.{Time, UuidLib, Env}
use ledger_engine.Errors.{Error, Result, ok, err}
use ledger_engine.Exec.Rules.{Outcome, Outcome-mono}
use ledger_engine.Ledger.Identifiers.{AccountId, equals, account_id_string}
use ledger_engine.Ledger.Entry.{EntryType, debit, credit, EntryParams, Entry, entry_type_string}
use ledger_engine.Ledger.Event.{DomainEvent, Payload, TransactionRecordedEvent}
use ledger_engine.Ledger.Transaction.{Transaction}
use ledger_engine.Ledger.Transaction.Spec.{params_of}
use ledger_engine.App.Commands.{RecordTransactionCmd}
use ledger_engine.App.Contract.Effects.{signed, net}
use ledger_engine.App.Service.Recording.{entry_event_data, record_transaction}
use ledger_engine.App.Service.Recording.Effect.{requested}
use ledger_engine.InMemory.{World, MapOrder}
use ledger_engine.Postgres.Tables.{Tables, Db}
use ledger_engine.Postgres.Server.{Server}
use ledger_engine.Postgres.Accounts.Balances.{balance_of, AreWide}
use ledger_engine.Projection.{balance_at, project_transaction_recorded}
use ledger_engine.Projection.Posting.{effect, net_of, balance_at-post_all-none}
use ledger_engine.Projection.Following.{Followed, project_transaction_recorded-Outcome}
use ledger_engine.Program.{Process, service}
use ledger_engine.Program.Columns.{
  shift, SameReadModel, same_read_model, SameReadModel-trans, Posted, text_equals,
}
use ledger_engine.Program.Recording.{recorded_event, Settled, record_transaction-Settled}

-- NewEntryType knows two types.
abbrev pub IsKnown : EntryType → Type 0
IsKnown type = (type ≡ debit) ⊎ (type ≡ credit)

abbrev pub AllKnown : List EntryParams → Type 0
AllKnown [] = Unit
AllKnown (p ∷ ps) = IsKnown p.type × AllKnown ps

equals_sym : (i j : AccountId) → equals i j ≡ equals j i
equals_sym i j = ground arith

module _ (u : UuidLib) where
  effect-signed :
      (e : Entry) → IsKnown e.type → effect (entry_event_data u e) ≡ signed e.type e.amount.amount
  unfolding entry_event_data entry_type_string neg64
  effect-signed e (inl is_debit) = rw is_debit refl
  effect-signed e (inr is_credit) = rw is_credit refl

  -- Where every entry is a debit or a credit, the projection adds to an account what the entries do.
  net_of-net :
      (j : AccountId) (es : List Entry)
      → AllKnown (map params_of es)
      → net_of (account_id_string u j) (map (entry_event_data u) es) ≡ net j (map params_of es)
  unfolding entry_event_data
  net_of-net j [] known = refl
  net_of-net j (e ∷ es) known =
      let named : str_eq (account_id_string u j) (account_id_string u e.account_id)
          ≡ equals e.account_id j =
        text_equals u j e.account_id ∙ equals_sym j e.account_id in
      rw (named, effect-signed e known.0, net_of-net j es known.1) refl

module _ (pg : Server) (u : UuidLib) where
  -- The read model has the balances of the accounts, each of 64 bits.
  pub record InSync (t : Tables) : Type 0 where
    pub wide : AreWide t.accounts
    pub agree :
        (j : AccountId)
        → balance_at (account_id_string u j) t.account_balances
          ≡ balance_of (account_id_string u j) t.accounts

  -- The last that was done is the projection of the transaction, after the accounts had moved: it
  -- failed and left this database, and the read model is as it was before the transaction.
  pub record IsBehind (tx : Transaction) (description : String) (t : Tables) (db' : Db)
      : Type 0 where
    pub posted : Db
    pub now : Time
    pub error : Error
    pub accounts : Posted pg u (map params_of tx.entries) t posted.tables
    pub failed :
        project_transaction_recorded pg (recorded_event pg u tx description now) posted
        ≡ (err error, db')
    pub read : SameReadModel t db'.tables

  -- The accounts have moved by the entries; the read model follows, or its projection failed.
  pub record Carried (cmd : RecordTransactionCmd) (tx : Transaction) (t : Tables) (db' : Db)
      : Type 0 where
    pub moved :
        (j : AccountId)
        → balance_of (account_id_string u j) db'.tables.accounts
          ≡ shift
              (net j (map requested cmd.entries))
              (balance_of (account_id_string u j) t.accounts)
    pub read_model : InSync db'.tables ⊎ IsBehind tx cmd.description t db'

  -- What the projection does to a column.
  Followed-shift :
      (event : TransactionRecordedEvent) (t t' : Tables)
      → Followed pg event t t'
      → (account : String)
      → ((b : Int64) → balance_at account t.account_balances ≡ some b → IsInt64 b)
      → balance_at account t'.account_balances
        ≡ shift (net_of account event.entries) (balance_at account t.account_balances)
  Followed-shift event t t' f account wide =
      elim (Option-cases (balance_at account t.account_balances)) [
        | inl unknown ↦
            rw (unknown, f.projected.tables)
              (balance_at-post_all-none (pg.timestamptz event.timestamp) event.entries account
                t.account_balances unknown)
        | inr (b, there) ↦ rw there (f.balances account b (wide b there) there)
      ]

  Followed-InSync :
      (tx : Transaction) (description : String) (now : Time) (t t₁ t' : Tables)
      → AllKnown (map params_of tx.entries)
      → InSync t
      → Posted pg u (map params_of tx.entries) t t₁
      → Followed pg (recorded_event pg u tx description now) t₁ t'
      → InSync t'
  Followed-InSync tx description now t t₁ t' known sync posted followed = record {
    wide = rw followed.projected.tables posted.wide;
    agree = λ j.
        let id = account_id_string u j in
        let entries = map (entry_event_data u) tx.entries in
        let before : balance_at id t₁.account_balances ≡ balance_of id t.accounts =
          ap (balance_at id) posted.read.balances ∙ sync.agree j in
        let accounts : t'.accounts ≡ t₁.accounts =
          ap (λ (x : Tables). x.accounts) followed.projected.tables in
        Followed-shift (recorded_event pg u tx description now) t₁ t' followed id
          (λ b there. sync.wide id b (sym before ∙ there))
        ∙ ap (shift (net_of id entries)) before
        ∙ ap (λ n. shift n (balance_of id t.accounts)) (net_of-net u j tx.entries known)
        ∙ sym (posted.moved j)
        ∙ ap (balance_of id) (sym accounts);
  }

  Settled-Carried :
      (cmd : RecordTransactionCmd) (tx : Transaction) (t : Tables) (db' : Db)
      → map params_of tx.entries ≡ map requested cmd.entries
      → AllKnown (map requested cmd.entries)
      → InSync t
      → Settled pg u tx cmd.description t db'
      → Carried cmd tx t db'
  Settled-Carried cmd tx t db' asked known sync settled = rw settled.projected (
      of_result (project_transaction_recorded pg event settled.posted) refl
        (project_transaction_recorded-Outcome pg event settled.posted))
    where
      event : TransactionRecordedEvent
      event = recorded_event pg u tx cmd.description settled.now

      of_result :
          (r : Result ⊤ × Db)
          → project_transaction_recorded pg event settled.posted ≡ r
          → Outcome
              (λ _ s'. Followed pg event settled.posted.tables s'.tables)
              (λ s'. s'.tables ≡ settled.posted.tables)
              r
          → Carried cmd tx t r.1
      of_result (ok _, db) run followed = record {
        moved = rw followed.projected.tables (rw asked at settled.accounts.moved);
        read_model = inl (
            Followed-InSync tx cmd.description settled.now t settled.posted.tables db.tables
              (rw asked known) sync settled.accounts followed);
      }
      of_result (err x, db) run same = record {
        moved = rw same (rw asked at settled.accounts.moved);
        read_model = inr (record {
          posted = settled.posted;
          now = settled.now;
          error = x;
          accounts = settled.accounts;
          failed = run;
          read =
              SameReadModel-trans t settled.posted.tables db.tables settled.accounts.read
                (same_read_model _ _ same);
        });
      }

-- Over PostgreSQL as main wires it, whatever the server answers, where the read model has the
-- balances of the accounts, all of 64 bits, and every entry of the command is a debit or a
-- credit: if RecordTransaction succeeds, each balance in the table of the accounts has moved by
-- the net of the command's entries on it, and the read model has the balances of the accounts
-- again, unless the call of its projection, which is the last thing done, returned an error and
-- left this database, and then it is as it was; if RecordTransaction fails, the read model is as
-- it was.
pub record_transaction-InSync :
    (pg : Server) (u : UuidLib) (order : MapOrder) (env : Env World)
    (marshal : DomainEvent → Result Payload) (cmd : RecordTransactionCmd) (s : Process)
    → AllKnown (map requested cmd.entries)
    → InSync pg u s.db.tables
    → Outcome
        (λ tx s'. Carried pg u cmd tx s.db.tables s'.db)
        (λ s'. SameReadModel s.db.tables s'.db.tables)
        (record_transaction (service pg u order env marshal) cmd s)
record_transaction-InSync pg u order env marshal cmd s known sync =
    Outcome-mono
      (λ tx s'.
        (map params_of tx.entries ≡ map requested cmd.entries)
        × Settled pg u tx cmd.description s.db.tables s'.db)
      (λ s'. SameReadModel s.db.tables s'.db.tables) _ _ _
      (λ tx s' h. Settled-Carried pg u cmd tx s.db.tables s'.db h.0 known sync h.1) (λ s' h. h)
      (record_transaction-Settled pg u order env marshal cmd s sync.wide)
