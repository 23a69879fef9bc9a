-- ===== src/Postgres/Outbox/Appending.antt =====
-- What AppendWithOutbox does to the two tables.
use ledger_engine.Prelude.{
  ⊤, ℕ, ◌+◌, ◌≡◌, refl, sym, ◌∙◌, ap, inl, inr, Option-cases, false, String, none, List, [], ◌∷◌,
  ◌++◌,
}
use mathlib.Core.List.{append-nil}
use ledger_engine.Prelude.Rows.{append_cons}
use ledger_engine.Prelude.Int64.{Int64}
use ledger_engine.Environment.{Time}
use ledger_engine.Exec.{continue, prefixed}
use ledger_engine.Exec.Rules.{Outcome, Outcome-continue, Outcome-mono, Outcome-ok}
use ledger_engine.Ledger.Event.{StoredEvent, event_type_string}
use ledger_engine.Postgres.Tables.{EventRow, OutboxRow, Tables, Db}
use ledger_engine.Postgres.Server.{Server, call, transaction-Outcome}
use ledger_engine.Postgres.EventStore.Appending.{
  IsVersioned, IsWritten, Written, Inserted, Inserted-IsVersioned, insert_event-Outcome,
}
use ledger_engine.Postgres.Outbox.{insert_outbox, append_both, append_with_outbox}

-- The outbox row carries the event of the other row.
pub record Mirrors (r : EventRow) (o : OutboxRow) : Type 0 where
  pub aggregate_id : o.aggregate_id ≡ r.aggregate_id
  pub aggregate_type : o.aggregate_type ≡ r.aggregate_type
  pub event_type : o.event_type ≡ r.event_type
  pub payload : o.payload ≡ r.payload

-- A pending outbox row for each event row, in order.
abbrev pub Mirrored : List EventRow → List OutboxRow → Type 0
Mirrored [] [] = Unit
Mirrored [] (o ∷ os) = ⊥
Mirrored (r ∷ rs) [] = ⊥
Mirrored (r ∷ rs) (o ∷ os) = Mirrors r o × (o.published ≡ false) × Mirrored rs os

add_rows :
    (t t₁ t₂ t' : Tables) (r : EventRow) (o : OutboxRow) (rs : List EventRow) (os : List OutboxRow)
    → t₁ ≡ record t { events = t.events ++ r ∷ [] }
    → t₂ ≡ record t₁ { outbox = t₁.outbox ++ o ∷ [] }
    → t' ≡ record t₂ { events = t₂.events ++ rs; outbox = t₂.outbox ++ os }
    → t' ≡ record t { events = t.events ++ r ∷ rs; outbox = t.outbox ++ o ∷ os }
add_rows t t₁ t₂ t' r o rs os p q e =
    let q' : t₂ ≡ record t { events = t.events ++ r ∷ []; outbox = t.outbox ++ o ∷ [] } =
      rw p at q in
    let e' : t'
        ≡ record t { events = (t.events ++ r ∷ []) ++ rs; outbox = (t.outbox ++ o ∷ []) ++ os } =
      rw q' at e in
    e'
    ∙ (λ k. record t { events = append_cons t.events r rs k; outbox = append_cons t.outbox o os k })

module _ (pg : Server) where
  -- The tables but for the rows that were added to both.
  pub record Doubled (aggregate aggregate_type : String) (expected : Int64) (i : ℕ)
      (es : List StoredEvent) (t t' : Tables) : Type 0 where
    pub rows : List EventRow
    pub entries : List OutboxRow
    pub tables : t' ≡ record t { events = t.events ++ rows; outbox = t.outbox ++ entries }
    pub written : Written pg aggregate aggregate_type expected i es rows
    pub mirrored : Mirrored rows entries
    pub versioned : IsVersioned t.events → IsVersioned t'.events

  -- What the second INSERT adds.
  record Queued (r : EventRow) (t t' : Tables) : Type 0 where
    entry : OutboxRow
    tables : t' ≡ record t { outbox = t.outbox ++ entry ∷ [] }
    mirrors : Mirrors r entry
    pending : entry.published ≡ false

  insert_outbox-Outcome :
      (start : Time) (aggregate aggregate_type : String) (expected : Int64) (i : ℕ)
      (e : StoredEvent) (r : EventRow) (db : Db)
      → IsWritten pg aggregate aggregate_type expected i e r
      → Outcome
          (λ _ s'. Queued r db.tables s'.tables)
          (λ _. ⊤)
          (prefixed "write outbox" (
            insert_outbox pg start aggregate aggregate_type
              (event_type_string e.event_type)
              e.payload
              db))
  unfolding insert_outbox call
  insert_outbox-Outcome start aggregate aggregate_type expected i e r db w =
      elim (Option-cases (pg.fault db.calls)) [
        | inr (x, down) ↦ rw down tt
        | inl up ↦
            rw (up, w.payload)
              (record {
                entry = record {
                  id = db.next_outbox;
                  aggregate_id = aggregate;
                  aggregate_type = aggregate_type;
                  event_type = event_type_string e.event_type;
                  payload = r.payload;
                  published = false;
                  created_at = start;
                  published_at = none;
                };
                tables = refl;
                mirrors = record {
                  aggregate_id = sym w.aggregate_id;
                  aggregate_type = sym w.type_of_aggregate;
                  event_type = sym w.event_type;
                  payload = refl;
                };
                pending = refl;
              })
      ]

  abbrev Doubles : String → String → Int64 → ℕ → List StoredEvent → Tables → ⊤ → Db → Type 0
  Doubles aggregate aggregate_type expected i es t _ s =
      Doubled aggregate aggregate_type expected i es t s.tables

  -- One round: an event, its entry, and the rest.
  doubled :
      (aggregate aggregate_type : String) (expected : Int64) (i : ℕ) (e : StoredEvent)
      (es : List StoredEvent) (t t₁ t₂ t' : Tables)
      (ins : Inserted pg aggregate aggregate_type expected i e t t₁)
      → Queued ins.row t₁ t₂
      → Doubled aggregate aggregate_type expected (i + 1) es t₂ t'
      → Doubled aggregate aggregate_type expected i (e ∷ es) t t'
  doubled aggregate aggregate_type expected i e es t t₁ t₂ t' ins queued more = record {
    rows = ins.row ∷ more.rows;
    entries = queued.entry ∷ more.entries;
    tables =
        add_rows t t₁ t₂ t' ins.row queued.entry more.rows more.entries ins.tables queued.tables
          more.tables;
    written = (ins.written, more.written);
    mirrored = (queued.mirrors, queued.pending, more.mirrored);
    versioned = λ once.
        more.versioned (rw (ap (λ u. u.events) queued.tables) (Inserted-IsVersioned pg ins once));
  }

  -- The entry, and what follows it.
  queue_rest :
      (start : Time) (aggregate aggregate_type : String) (expected : Int64) (i : ℕ)
      (e : StoredEvent) (es : List StoredEvent) (db s : Db)
      → Inserted pg aggregate aggregate_type expected i e db.tables s.tables
      → ((s' : Db)
          → Outcome
              (Doubles aggregate aggregate_type expected (i + 1) es s'.tables)
              (λ _. ⊤)
              (append_both pg start aggregate aggregate_type expected (i + 1) es s'))
      → Outcome
          (Doubles aggregate aggregate_type expected i (e ∷ es) db.tables)
          (λ _. ⊤)
          (continue
            (prefixed "write outbox" (
              insert_outbox pg start aggregate aggregate_type
                (event_type_string e.event_type)
                e.payload
                s))
            (λ _. append_both pg start aggregate aggregate_type expected (i + 1) es))
  queue_rest start aggregate aggregate_type expected i e es db s ins rest =
      Outcome-continue _ _ _ _
        (λ _ s' p.
          let queued : Queued ins.row s.tables s'.tables =
            Outcome-ok (λ _ s''. Queued ins.row s.tables s''.tables) (λ _. ⊤) _ p
              (insert_outbox-Outcome start aggregate aggregate_type expected i e ins.row s
                ins.written) in
          Outcome-mono (Doubles aggregate aggregate_type expected (i + 1) es s'.tables) (λ _. ⊤)
            (Doubles aggregate aggregate_type expected i (e ∷ es) db.tables) (λ _. ⊤)
            (append_both pg start aggregate aggregate_type expected (i + 1) es s')
            (λ _ s'' more.
              doubled aggregate aggregate_type expected i e es db.tables s.tables s'.tables
                s''.tables ins queued more)
            (λ _ _. tt) (rest s'))
        (λ _ _ _. tt)

  append_both-Outcome :
      (start : Time) (aggregate aggregate_type : String) (expected : Int64) (i : ℕ)
      (es : List StoredEvent) (db : Db)
      → Outcome
          (Doubles aggregate aggregate_type expected i es db.tables)
          (λ _. ⊤)
          (append_both pg start aggregate aggregate_type expected i es db)
  unfolding append_both
  append_both-Outcome start aggregate aggregate_type expected i [] db = record {
    rows = [];
    entries = [];
    tables = sym (λ k. record db.tables {
      events = append-nil db.tables.events k;
      outbox = append-nil db.tables.outbox k;
    });
    written = tt;
    mirrored = tt;
    versioned = λ h. h;
  }
  append_both-Outcome start aggregate aggregate_type expected i (e ∷ es) db =
      Outcome-continue _ _ _ _
        (λ _ s p.
          let ins : Inserted pg aggregate aggregate_type expected i e db.tables s.tables =
            Outcome-ok
              (λ _ s'. Inserted pg aggregate aggregate_type expected i e db.tables s'.tables)
              (λ _. ⊤) _ p (insert_event-Outcome pg aggregate aggregate_type expected i e db) in
          queue_rest start aggregate aggregate_type expected i e es db s ins
            (append_both-Outcome start aggregate aggregate_type expected (i + 1) es))
        (λ _ _ _. tt)

  -- Whatever the server answers: if AppendWithOutbox succeeds, the event table has grown by a row
  -- for each event, with the versions that follow the expected one, the outbox by an entry for each
  -- of these rows, in order, that waits and has its aggregate, types and payload, and versions stay
  -- unique; if it fails, all tables are as they were.
  pub append_with_outbox-Outcome :
      (aggregate aggregate_type : String) (expected : Int64) (es : List StoredEvent) (db : Db)
      → Outcome
          (λ _ s'. Doubled aggregate aggregate_type expected 0 es db.tables s'.tables)
          (λ s'. s'.tables ≡ db.tables)
          (append_with_outbox pg aggregate aggregate_type expected es db)
  unfolding append_with_outbox
  append_with_outbox-Outcome aggregate aggregate_type expected es db =
      Outcome-mono
        (λ _ s'. Time × Doubled aggregate aggregate_type expected 0 es db.tables s'.tables)
        (λ s'. s'.tables ≡ db.tables) (Doubles aggregate aggregate_type expected 0 es db.tables)
        (λ s'. s'.tables ≡ db.tables) _ (λ _ s' h. h.1) (λ _ h. h)
        (transaction-Outcome pg
          (λ _ _ t. Doubled aggregate aggregate_type expected 0 es db.tables t) _ db
          (λ start s same.
            rw (← same) (append_both-Outcome start aggregate aggregate_type expected 0 es s)))
