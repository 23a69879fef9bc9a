-- ===== src/Projection/Following.antt =====
-- A projected transaction moves the read model by its entries, or leaves it as it was.
use ledger_engine.Prelude.{
  ⊤, ℕ, ◌+◌, ◌≡◌, refl, sym, ◌∙◌, inl, inr, String, some, Option-cases, List, [], ◌∷◌, ◌++◌, map,
}
use mathlib.Core.List.{append-nil}
use ledger_engine.Prelude.Int64.{Int64, IsInt64, add64}
use ledger_engine.Prelude.Rows.{append_cons}
use ledger_engine.Environment.{Time}
use ledger_engine.Errors.{Result, ok, err}
use ledger_engine.Exec.{continue}
use ledger_engine.Exec.Rules.{Outcome, Outcome-mono}
use ledger_engine.Ledger.Event.{EntryEventData, TransactionRecordedEvent}
use ledger_engine.Postgres.Tables.{BalanceRow, HistoryRow, Tables, Db}
use ledger_engine.Postgres.Server.{Server, call, transaction-Outcome}
use ledger_engine.Projection.{
  history_row, update_all, balance_at, delta, update_balance, select_balance, insert_history,
  project_entry, project_entries, project_transaction_recorded,
}
use ledger_engine.Projection.Posting.{net_of, post, post_all, update_all-post, balance_at-post_all}

module _ (pg : Server) where
  -- The line of the history that an entry leaves, where the balances are those after it.
  pub record Journalled (event : TransactionRecordedEvent) (e : EntryEventData)
      (after : List BalanceRow) (h : HistoryRow) : Type 0 where
    pub transaction_id : h.transaction_id ≡ event.transaction_id
    pub account_id : h.account_id ≡ e.account_id
    pub entry_type : h.entry_type ≡ e.type
    pub amount : h.amount ≡ e.amount
    pub currency : h.currency ≡ e.currency
    pub description : h.description ≡ event.description
    pub balance_after : balance_at e.account_id after ≡ some h.balance_after

  abbrev pub Journal :
      TransactionRecordedEvent → List EntryEventData → List BalanceRow → List HistoryRow → Type 0
  Journal event [] rows [] = Unit
  Journal event [] rows (h ∷ hs) = ⊥
  Journal event (e ∷ es) rows [] = ⊥
  Journal event (e ∷ es) rows (h ∷ hs) =
      let after = map (post (pg.timestamptz event.timestamp) e) rows in
      Journalled event e after h × Journal event es after hs

  -- What the entries `es` of an event make of the tables `t`.
  pub record Projected (event : TransactionRecordedEvent) (es : List EntryEventData) (t t' : Tables)
      : Type 0 where
    pub lines : List HistoryRow
    pub journal : Journal event es t.account_balances lines
    pub tables : t' ≡ record t {
      account_balances = post_all (pg.timestamptz event.timestamp) es t.account_balances;
      transaction_history = t.transaction_history ++ lines;
    }

  record Entered (event : TransactionRecordedEvent) (e : EntryEventData) (t t' : Tables)
      : Type 0 where
    line : HistoryRow
    entered :
        Journalled event e (map (post (pg.timestamptz event.timestamp) e) t.account_balances) line
    tables : t' ≡ record t {
      account_balances = map (post (pg.timestamptz event.timestamp) e) t.account_balances;
      transaction_history = t.transaction_history ++ line ∷ [];
    }

  Projected-cons :
      (event : TransactionRecordedEvent) (e : EntryEventData) (es : List EntryEventData)
      (t t₁ t' : Tables)
      → Entered event e t t₁
      → Projected event es t₁ t'
      → Projected event (e ∷ es) t t'
  Projected-cons event e es t t₁ t' i d = record {
    lines = i.line ∷ d.lines;
    journal = (i.entered, rw i.tables at d.journal);
    tables = (rw i.tables at d.tables) ∙ (λ k. record t {
      account_balances = post_all (pg.timestamptz event.timestamp) (e ∷ es) t.account_balances;
      transaction_history = append_cons t.transaction_history i.line d.lines k;
    });
  }

  entered_lem :
      (event : TransactionRecordedEvent) (e : EntryEventData) (t : Tables) (rows : List BalanceRow)
      (after : Int64) (id : ℕ)
      → update_all (pg.timestamptz event.timestamp) (delta e) e.account_id t.account_balances
        ≡ some rows
      → balance_at e.account_id rows ≡ some after
      → Entered event e t (record t {
        account_balances = rows;
        transaction_history = t.transaction_history ++ history_row pg id event e after ∷ [];
      })
  entered_lem event e t rows after id q there =
      let followed = update_all-post (pg.timestamptz event.timestamp) e t.account_balances rows q in
      rw followed (record {
        line = history_row pg id event e after;
        entered = record {
          transaction_id = refl;
          account_id = refl;
          entry_type = refl;
          amount = refl;
          currency = refl;
          description = refl;
          balance_after = rw followed at there;
        };
        tables = refl;
      })

  project_entry-Outcome :
      (event : TransactionRecordedEvent) (e : EntryEventData) (db : Db)
      → Outcome (λ _ s'. Entered event e db.tables s'.tables) (λ _. ⊤) (project_entry pg event e db)
  unfolding project_entry update_balance select_balance insert_history call
  project_entry-Outcome event e db = elim (Option-cases (pg.fault db.calls)) [
    | inr (f, down) ↦ rw down tt
    | inl up ↦
        rw up
          (elim (Option-cases (
            update_all (pg.timestamptz event.timestamp) (delta e) e.account_id
              db.tables.account_balances)) [
                | inl wide ↦ rw wide tt
                | inr (rows, q) ↦ rw q (elim (Option-cases (pg.fault (db.calls + 1))) [
                  | inr (f, down) ↦ rw down tt
                  | inl up' ↦ rw up' (elim (Option-cases (balance_at e.account_id rows)) [
                    | inl gone ↦ rw gone tt
                    | inr (after, there) ↦
                        rw there (elim (Option-cases (pg.fault (db.calls + 1 + 1))) [
                          | inr (f, down) ↦ rw down tt
                          | inl up'' ↦
                              rw up''
                                (entered_lem event e db.tables rows after db.next_history q there)
                        ])
                  ])
                ])
              ])
  ]

  project_entries-Outcome :
      (event : TransactionRecordedEvent) (es : List EntryEventData) (db : Db)
      → Outcome
          (λ _ s'. Projected event es db.tables s'.tables)
          (λ _. ⊤)
          (project_entries pg event es db)
  unfolding project_entries
  project_entries-Outcome event [] db = record {
    lines = [];
    journal = tt;
    tables = sym (λ k. record db.tables {
      transaction_history = append-nil db.tables.transaction_history k;
    });
  }
  project_entries-Outcome event (e ∷ es) db =
      of_entry (project_entry pg event e db) (project_entry-Outcome event e db)
        (λ s. project_entries-Outcome event es s)
    where
      of_entry :
          (r : Result ⊤ × Db)
          → Outcome (λ _ s'. Entered event e db.tables s'.tables) (λ _. ⊤) r
          → ((s : Db)
              → Outcome
                  (λ _ s'. Projected event es s.tables s'.tables)
                  (λ _. ⊤)
                  (project_entries pg event es s))
          → Outcome
              (λ _ s'. Projected event (e ∷ es) db.tables s'.tables)
              (λ _. ⊤)
              (continue r (λ _. project_entries pg event es))
      of_entry (ok _, s) i rest =
          Outcome-mono (λ _ s'. Projected event es s.tables s'.tables) (λ _. ⊤) _ _
            (project_entries pg event es s)
            (λ _ s' d. Projected-cons event e es db.tables s.tables s'.tables i d) (λ _ _. tt)
            (rest s)
      of_entry (err f, s) i rest = tt

  -- What the event makes of the tables, with the balances said apart from the loop.
  pub record Followed (event : TransactionRecordedEvent) (t t' : Tables) : Type 0 where
    pub projected : Projected event event.entries t t'
    pub balances :
        (account : String) (b : Int64)
        → IsInt64 b
        → balance_at account t.account_balances ≡ some b
        → balance_at account t'.account_balances ≡ some (add64 b (net_of account event.entries))

  Followed-intro :
      (event : TransactionRecordedEvent) (t t' : Tables)
      → Projected event event.entries t t'
      → Followed event t t'
  Followed-intro event t t' d = record {
    projected = d;
    balances = λ account b wide here. rw d.tables (
        balance_at-post_all (pg.timestamptz event.timestamp) event.entries account
          t.account_balances b wide here);
  }

  -- Whatever the server answers: if ProjectTransactionRecorded succeeds, each account's balance in
  -- the read model, if it has 64 bits, has moved by the net of the event's entries on it, no table
  -- but the balances and the history has changed, and the history has a new line for each entry, in
  -- order, with the balance after it; if it fails, all tables are as they were.
  pub project_transaction_recorded-Outcome :
      (event : TransactionRecordedEvent) (db : Db)
      → Outcome
          (λ _ s'. Followed event db.tables s'.tables)
          (λ s'. s'.tables ≡ db.tables)
          (project_transaction_recorded pg event db)
  unfolding project_transaction_recorded
  project_transaction_recorded-Outcome event db =
      Outcome-mono (λ _ s'. Time × Followed event db.tables s'.tables) (λ s'. s'.tables ≡ db.tables)
        (λ _ s'. Followed event db.tables s'.tables) (λ s'. s'.tables ≡ db.tables)
        (project_transaction_recorded pg event db) (λ _ _ h. h.1) (λ _ h. h)
        (transaction-Outcome pg (λ _ _ t'. Followed event db.tables t')
          (λ _. project_entries pg event event.entries) db
          (λ start s same.
            Outcome-mono (λ _ s'. Projected event event.entries s.tables s'.tables) (λ _. ⊤)
              (λ _ s'. Followed event db.tables s'.tables) (λ _. ⊤)
              (project_entries pg event event.entries s)
              (λ _ s' d. Followed-intro event db.tables s'.tables (rw same at d)) (λ _ _. tt)
              (project_entries-Outcome event event.entries s)))
