-- ===== src/Program/Posting.antt =====
-- The loop of RecordTransaction over PostgreSQL.
use ledger_engine.Prelude.{
  ◌≡◌, refl, sym, ap, ◌∙◌, Option, none, some, List, [], ◌∷◌, map, if◌then◌else◌,
}
use ledger_engine.Prelude.Int64.{Int64, add64, add64_assoc}
use ledger_engine.Environment.{UuidLib, Env}
use ledger_engine.Errors.{Result, ok}
use ledger_engine.Exec.Rules.{
  Outcome, Outcome-call, Outcome-prefixed, Outcome-continue, Outcome-ok, Outcome-err, Outcome-mono,
}
use ledger_engine.Ledger.Identifiers.{AccountId, account_id_string, equals}
use ledger_engine.Ledger.Event.{DomainEvent, Payload}
use ledger_engine.Ledger.Entry.{EntryParams, Entry}
use ledger_engine.Ledger.Transaction.Spec.{params_of}
use ledger_engine.Account.{Account}
use ledger_engine.App.Contract.Effects.{signed, net}
use ledger_engine.App.Service.Params.{apply_entry}
use ledger_engine.App.Service.Recording.{record_entry, record_entries}
use ledger_engine.App.Ports.{LedgerService}
use ledger_engine.InMemory.{World, MapOrder}
use ledger_engine.Postgres.Tables.{Tables, Db}
use ledger_engine.Postgres.Server.{Server}
use ledger_engine.Postgres.Accounts.{upsert_account, account_row, save, find_row, find_by_id}
use ledger_engine.Postgres.Accounts.Balances.{balance_of, AreWide, find_row-FoundIn}
use ledger_engine.Program.{Process, service}
use ledger_engine.Program.Columns.{
  shift, shift-zero, SameReadModel, same_read_model, SameReadModel-trans, on_db-Outcome,
  find_by_id-Outcome, save-Outcome, Posted, Entered, saved-Entered,
}

shift-add64 : (m n : Int64) (o : Option Int64) → shift n (shift m o) ≡ shift (add64 m n) o
shift-add64 m n none = refl
shift-add64 m n (some b) = ap some (add64_assoc b m n)

module _ (pg : Server) (u : UuidLib) where
  Posted-nil : (t : Tables) → AreWide t.accounts → Posted pg u [] t t
  Posted-nil t wide = record {
    read = record { balances = refl; history = refl };
    wide = wide;
    moved = λ j.
        sym (
          shift-zero (balance_of (account_id_string u j) t.accounts)
            (wide (account_id_string u j)));
  }

  Posted-cons :
      (e : Entry) (ps : List EntryParams) (t t₁ t' : Tables)
      → Entered pg u e t t₁
      → Posted pg u ps t₁ t'
      → Posted pg u (params_of e ∷ ps) t t'
  Posted-cons e ps t t₁ t' step rest = record {
    read = SameReadModel-trans t t₁ t' step.read rest.read;
    wide = rest.wide;
    moved = λ j.
        rest.moved j
        ∙ ap (λ o. shift (net j ps) o) (step.moved j)
        ∙ shift-add64 (if equals e.account_id j then signed e.type e.amount.amount else 0)
            (net j ps) (balance_of (account_id_string u j) t.accounts);
  }

module _ (pg : Server) (u : UuidLib) (order : MapOrder) (env : Env World)
    (marshal : DomainEvent → Result Payload) where
  abbrev svc : LedgerService Process
  svc = service pg u order env marshal

  abbrev Found : AccountId → Process → Account → Process → Type 0
  Found id s a s' = (find_row pg u id s.db.tables.accounts ≡ ok a) × (s'.db.tables ≡ s.db.tables)

  find-Outcome :
      (id : AccountId) (s : Process)
      → Outcome
          (λ a s'. Found id s a s')
          (λ s'. s'.db.tables ≡ s.db.tables)
          (svc.accounts.find_by_id id s)
  unfolding service
  find-Outcome id s =
      on_db-Outcome
        (λ a db. (find_row pg u id s.db.tables.accounts ≡ ok a) × (db.tables ≡ s.db.tables))
        (λ db. db.tables ≡ s.db.tables) (find_by_id pg u id) s (find_by_id-Outcome pg u id s.db)

  abbrev Written : Account → Tables → Tables → Type 0
  Written b t t' = t' ≡ record t { accounts = upsert_account (account_row pg u b) t.accounts }

  saved-Outcome :
      (b : Account) (s : Process)
      → Outcome
          (λ _ s'. Written b s.db.tables s'.db.tables)
          (λ s'. s'.db.tables ≡ s.db.tables)
          (svc.accounts.save b s)
  unfolding service
  saved-Outcome b s =
      on_db-Outcome (λ _ db. Written b s.db.tables db.tables) (λ db. db.tables ≡ s.db.tables)
        (save pg u b) s (save-Outcome pg u b s.db)

  now_keeps : (s : Process) → (svc.env.now s).1.db ≡ s.db
  unfolding service
  now_keeps s = refl

  record_entry-Entered :
      (e : Entry) (s : Process)
      → AreWide s.db.tables.accounts
      → Outcome
          (λ _ s'. Entered pg u e s.db.tables s'.db.tables)
          (λ s'. SameReadModel s.db.tables s'.db.tables)
          (record_entry svc e s)
  unfolding record_entry
  record_entry-Entered e s wide =
      Outcome-call _ _ _ (svc.accounts.find_by_id e.account_id s) _
        (λ a s₁ p.
          let found : Found e.account_id s a s₁ =
            Outcome-ok (λ a s'. Found e.account_id s a s') (λ s'. s'.db.tables ≡ s.db.tables)
              (svc.accounts.find_by_id e.account_id s) p (find-Outcome e.account_id s) in
          let now = (svc.env.now s₁).0 in
          let s₂ = (svc.env.now s₁).1 in
          let kept : s₂.db.tables ≡ s.db.tables =
            ap (λ (db : Db). db.tables) (now_keeps s₁) ∙ found.1 in
          Outcome-call _ _ _ (apply_entry now a e, s₂) _
            (λ b s₃ q.
              let here : s₃.db.tables ≡ s.db.tables = ap (λ r. r.1.db.tables) (sym q) ∙ kept in
              Outcome-prefixed _ _ _ (svc.accounts.save b s₃) (
                Outcome-mono (λ _ s'. Written b s₃.db.tables s'.db.tables)
                  (λ s'. s'.db.tables ≡ s₃.db.tables) _ _ (svc.accounts.save b s₃)
                  (λ _ s' w.
                    saved-Entered pg u e now a b s.db.tables s'.db.tables wide
                      (find_row-FoundIn pg u e.account_id s.db.tables.accounts a
                        (wide (account_id_string u e.account_id)) found.0)
                      (ap (λ r. r.0) q)
                      (w
                        ∙ ap
                            (λ (t : Tables). record t {
                              accounts = upsert_account (account_row pg u b) t.accounts;
                            })
                            here))
                  (λ s' k. same_read_model _ _ (k ∙ here)) (saved-Outcome b s₃)))
            (λ x s₃ q. same_read_model _ _ (ap (λ r. r.1.db.tables) (sym q) ∙ kept)))
        (λ x s₁ p. same_read_model _ _ (
          Outcome-err (λ a s'. Found e.account_id s a s') (λ s'. s'.db.tables ≡ s.db.tables) _ p
            (find-Outcome e.account_id s)))

  -- If the loop succeeds, each balance in the table has moved by the net of the entries on it.
  -- Either way the read model is as it was.
  pub record_entries-Posted :
      (es : List Entry) (s : Process)
      → AreWide s.db.tables.accounts
      → Outcome
          (λ _ s'. Posted pg u (map params_of es) s.db.tables s'.db.tables)
          (λ s'. SameReadModel s.db.tables s'.db.tables)
          (record_entries svc es s)
  unfolding record_entries
  record_entries-Posted [] s wide = Posted-nil pg u s.db.tables wide
  record_entries-Posted (e ∷ es) s wide =
      Outcome-continue _ _ (record_entry svc e s) (λ _. record_entries svc es)
        (λ _ s₁ p.
          let step : Entered pg u e s.db.tables s₁.db.tables =
            Outcome-ok _ _ (record_entry svc e s) p (record_entry-Entered e s wide) in
          Outcome-mono (λ _ s'. Posted pg u (map params_of es) s₁.db.tables s'.db.tables)
            (λ s'. SameReadModel s₁.db.tables s'.db.tables) _ _ (record_entries svc es s₁)
            (λ _ s' h. Posted-cons pg u e (map params_of es) _ _ _ step h)
            (λ s' h. SameReadModel-trans _ _ _ step.read h) (record_entries-Posted es s₁ step.wide))
        (λ x s₁ p. Outcome-err _ _ (record_entry svc e s) p (record_entry-Entered e s wide))
