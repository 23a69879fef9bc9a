-- ===== src/Postgres/EventStore/Appending.antt =====
-- What Append and its loop do to the table of events.
use ledger_engine.Prelude.{
  ⊤, ℕ, ◌+◌, ◌≤◌, ◌≡◌, refl, ◌∙◌, ap, inl, inr, Bool-cases, Option-cases, ◌==◌, ==_iff, String,
  some, List, [], ◌∷◌, ◌++◌, arith, eq_iff,
}
use mathlib.Core.List.{append-nil}
use ledger_engine.Prelude.Rows.{append_cons}
use ledger_engine.Prelude.Int64.{Int64, add64}
use ledger_engine.Environment.{Time}
use ledger_engine.Errors.{version_conflict}
use ledger_engine.Exec.Rules.{Outcome, Outcome-continue, Outcome-mono, Outcome-ok}
use ledger_engine.Ledger.Event.{StoredEvent, event_type_string}
use ledger_engine.Postgres.Tables.{EventRow, Tables, Db}
use ledger_engine.Postgres.Server.{Server, call, instead, transaction-Outcome}
use ledger_engine.Postgres.EventStore.{count_at, insert_event, append_events, append}

-- At most one row for each version of an aggregate.
abbrev pub IsVersioned : List EventRow → Type 0
IsVersioned rows = (aggregate : String) (version : Int64) → count_at aggregate version rows ≤ 1

pub count_at-append :
    (aggregate : String) (version : Int64) (rows more : List EventRow)
    → count_at aggregate version (rows ++ more)
      ≡ count_at aggregate version rows + count_at aggregate version more
unfolding count_at
count_at-append aggregate version [] more = omega arith
count_at-append aggregate version (r ∷ rows) more =
    omega (arith, count_at-append aggregate version rows more)

-- A row at a version that has none yet.
append-IsVersioned :
    (rows : List EventRow) (r : EventRow)
    → count_at r.aggregate_id r.version rows ≡ 0
    → IsVersioned rows
    → IsVersioned (rows ++ r ∷ [])
unfolding count_at
append-IsVersioned rows r free once aggregate version = ground (
  arith,
  count_at-append aggregate version rows (r ∷ []),
  once aggregate version,
  eq_iff r.aggregate_id aggregate,
)

-- A row, and then more.
add_row :
    (t t' t'' : Tables) (r : EventRow) (rs : List EventRow)
    → t' ≡ record t { events = t.events ++ r ∷ [] }
    → t'' ≡ record t' { events = t'.events ++ rs }
    → t'' ≡ record t { events = t.events ++ r ∷ rs }
add_row t t' t'' r rs p q =
    (rw p at q) ∙ ap (λ l. record t { events = l }) (append_cons t.events r rs)

module _ (pg : Server) where
  -- The row that is written of an event, as the `i`-th of its call.
  pub record IsWritten (aggregate aggregate_type : String) (expected : Int64) (i : ℕ)
      (e : StoredEvent) (r : EventRow) : Type 0 where
    pub aggregate_id : r.aggregate_id ≡ aggregate
    pub type_of_aggregate : r.aggregate_type ≡ aggregate_type
    pub event_type : r.event_type ≡ event_type_string e.event_type
    pub version : r.version ≡ add64 (add64 expected i) 1
    pub payload : pg.jsonb e.payload ≡ some r.payload
    pub occurred_at : r.occurred_at ≡ pg.timestamptz e.occurred_at

  -- A row for each event, in order, with the versions counting up.
  abbrev pub Written : String → String → Int64 → ℕ → List StoredEvent → List EventRow → Type 0
  Written aggregate aggregate_type expected i [] [] = Unit
  Written aggregate aggregate_type expected i [] (r ∷ rs) = ⊥
  Written aggregate aggregate_type expected i (e ∷ es) [] = ⊥
  Written aggregate aggregate_type expected i (e ∷ es) (r ∷ rs) =
      IsWritten aggregate aggregate_type expected i e r
      × Written aggregate aggregate_type expected (i + 1) es rs

  -- The tables but for the rows that were added to the events.
  pub record Extended (aggregate aggregate_type : String) (expected : Int64) (i : ℕ)
      (es : List StoredEvent) (t t' : Tables) : Type 0 where
    pub rows : List EventRow
    pub tables : t' ≡ record t { events = t.events ++ rows }
    pub written : Written aggregate aggregate_type expected i es rows
    pub versioned : IsVersioned t.events → IsVersioned t'.events

  -- One INSERT, and the error that stands for any of it.
  pub record Inserted (aggregate aggregate_type : String) (expected : Int64) (i : ℕ)
      (e : StoredEvent) (t t' : Tables) : Type 0 where
    pub row : EventRow
    pub tables : t' ≡ record t { events = t.events ++ row ∷ [] }
    pub written : IsWritten aggregate aggregate_type expected i e row
    pub free : count_at row.aggregate_id row.version t.events ≡ 0

  pub insert_event-Outcome :
      (aggregate aggregate_type : String) (expected : Int64) (i : ℕ) (e : StoredEvent) (db : Db)
      → Outcome
          (λ _ s'. Inserted aggregate aggregate_type expected i e db.tables s'.tables)
          (λ _. ⊤)
          (instead version_conflict (
            insert_event pg aggregate aggregate_type
              (event_type_string e.event_type)
              (add64 (add64 expected i) 1)
              e.payload
              e.occurred_at
              db))
  unfolding insert_event call
  insert_event-Outcome aggregate aggregate_type expected i e db =
      elim (Option-cases (pg.fault db.calls)) [
        | inr (x, down) ↦ rw down tt
        | inl up ↦ elim (Option-cases (pg.jsonb e.payload)) [
          | inl bad ↦ rw (up, bad) tt
          | inr (json, read) ↦
              let version = add64 (add64 expected i) 1 in
              elim (Bool-cases (count_at aggregate version db.tables.events == 0)) [
                | inr taken ↦ rw (up, read, taken) tt
                | inl free ↦
                    rw (up, read, free)
                      (record {
                        row = record {
                          id = db.next_event;
                          aggregate_id = aggregate;
                          aggregate_type = aggregate_type;
                          event_type = event_type_string e.event_type;
                          version = version;
                          payload = json;
                          occurred_at = pg.timestamptz e.occurred_at;
                        };
                        tables = refl;
                        written = record {
                          aggregate_id = refl;
                          type_of_aggregate = refl;
                          event_type = refl;
                          version = refl;
                          payload = read;
                          occurred_at = refl;
                        };
                        free = (==_iff _ 0).0 free;
                      })
              ]
        ]
      ]

  pub Inserted-IsVersioned :
      {aggregate aggregate_type : String} {expected : Int64} {i : ℕ} {e : StoredEvent}
      {t t' : Tables}
      → Inserted aggregate aggregate_type expected i e t t'
      → IsVersioned t.events
      → IsVersioned t'.events
  Inserted-IsVersioned {t} ins once =
      rw ins.tables (append-IsVersioned t.events ins.row ins.free once)

  abbrev Extends : String → String → Int64 → ℕ → List StoredEvent → Tables → ⊤ → Db → Type 0
  Extends aggregate aggregate_type expected i es t _ s =
      Extended aggregate aggregate_type expected i es t s.tables

  append_events-Outcome :
      (aggregate aggregate_type : String) (expected : Int64) (i : ℕ) (es : List StoredEvent)
      (db : Db)
      → Outcome
          (Extends aggregate aggregate_type expected i es db.tables)
          (λ _. ⊤)
          (append_events pg aggregate aggregate_type expected i es db)
  unfolding append_events
  append_events-Outcome aggregate aggregate_type expected i [] db = record {
    rows = [];
    tables = rw (append-nil db.tables.events);
    written = tt;
    versioned = λ h. h;
  }
  append_events-Outcome aggregate aggregate_type expected i (e ∷ es) db =
      let first = insert_event-Outcome aggregate aggregate_type expected i e db in
      Outcome-continue _ _ _ _
        (λ _ s p.
          let ins : Inserted aggregate aggregate_type expected i e db.tables s.tables =
            Outcome-ok (λ _ s'. Inserted aggregate aggregate_type expected i e db.tables s'.tables)
              (λ _. ⊤) _ p first in
          let later = append_events-Outcome aggregate aggregate_type expected (i + 1) es s in
          Outcome-mono (Extends aggregate aggregate_type expected (i + 1) es s.tables) (λ _. ⊤)
            (Extends aggregate aggregate_type expected i (e ∷ es) db.tables) (λ _. ⊤)
            (append_events pg aggregate aggregate_type expected (i + 1) es s)
            (λ _ s' x. record {
              rows = ins.row ∷ x.rows;
              tables = add_row db.tables s.tables s'.tables ins.row x.rows ins.tables x.tables;
              written = (ins.written, x.written);
              versioned = λ once. x.versioned (Inserted-IsVersioned ins once);
            })
            (λ _ _. tt) later)
        (λ _ _ _. tt)

  -- Whatever the server answers: if Append succeeds, the event table has grown by a row for each
  -- event, with the versions that follow the expected one, and versions stay unique; if it fails,
  -- all tables are as they were.
  pub append-Outcome :
      (aggregate aggregate_type : String) (expected : Int64) (es : List StoredEvent) (db : Db)
      → Outcome
          (λ _ s'. Extended aggregate aggregate_type expected 0 es db.tables s'.tables)
          (λ s'. s'.tables ≡ db.tables)
          (append pg aggregate aggregate_type expected es db)
  unfolding append
  append-Outcome aggregate aggregate_type expected es db =
      Outcome-mono
        (λ _ s'. Time × Extended aggregate aggregate_type expected 0 es db.tables s'.tables)
        (λ s'. s'.tables ≡ db.tables) (Extends aggregate aggregate_type expected 0 es db.tables)
        (λ s'. s'.tables ≡ db.tables) _ (λ _ s' h. h.1) (λ _ h. h)
        (transaction-Outcome pg
          (λ _ _ t. Extended aggregate aggregate_type expected 0 es db.tables t) _ db
          (λ start s same.
            rw (← same) (append_events-Outcome aggregate aggregate_type expected 0 es s)))
