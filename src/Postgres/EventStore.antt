-- ===== src/Postgres/EventStore.antt =====
-- internal/infra/postgres/event_store.go: the append-only table of events, and the snapshots.
pub mod Appending
pub mod Loading
pub mod Snapshots
use ledger_engine.Prelude.{
  ⊤, ℕ, ◌+◌, Bool, ◌==◌, ◌&&◌, str_eq, if◌then◌else◌, leb, ltb, String, Option, none, some, List,
  [], ◌∷◌, ◌++◌, map, decimal,
}
use ledger_engine.Prelude.Int64.{Int64, add64, rank64}
use ledger_engine.Prelude.Rows.{select, order_by}
use ledger_engine.Environment.{Time}
use ledger_engine.Errors.{Error, Result, ok, err, opaque_error, version_conflict}
use ledger_engine.Exec.{Exec, pure, wrapping, continue, ◌>>=◌, ◌>>◌}
use ledger_engine.Ledger.Event.{
  Payload, StoredEvent, EventStore, Snapshot, SnapshotStore, event_type_string, event_type_of,
}
use ledger_engine.Postgres.Tables.{EventRow, SnapshotRow, Tables, Db}
use ledger_engine.Postgres.Server.{Server, call, instead, transaction}

-- How many rows an aggregate has at a version: CONSTRAINT uq_aggregate_version allows one.
unfoldable pub count_at : String → Int64 → List EventRow → ℕ
count_at aggregate version [] = 0
count_at aggregate version (r ∷ rs) =
    (if str_eq r.aggregate_id aggregate && r.version == version then 1 else 0)
    + count_at aggregate version rs

abbrev pub with_events : List EventRow → Db → Db
with_events rows db = record db { tables = record db.tables { events = rows } }

-- The row of an INSERT whose payload was read as JSON.
abbrev insert_row : EventRow → Exec Db ⊤
insert_row row db =
    if count_at row.aggregate_id row.version db.tables.events == 0
    then (ok tt, with_events (db.tables.events ++ row ∷ []) db)
    else (err (opaque_error "duplicate key value violates unique constraint"), db)

abbrev insert_json : Option Payload → (Payload → EventRow) → Exec Db ⊤
insert_json none row db = (err (opaque_error "invalid input syntax for type json"), db)
insert_json (some payload) row db =
    insert_row (row payload) (record db { next_event = db.next_event + 1 })

-- rows.Scan(…); e.ID = fmt.Sprintf("%d", dbID)
unfoldable pub scan_event : EventRow → StoredEvent
scan_event r = record {
  id = decimal r.id;
  aggregate_id = r.aggregate_id;
  aggregate_type = r.aggregate_type;
  event_type = event_type_of r.event_type;
  version = r.version;
  payload = r.payload;
  occurred_at = r.occurred_at;
}

-- WHERE aggregate_id = $1 AND version > $2 ORDER BY version ASC
unfoldable pub events_after : String → Int64 → List EventRow → List EventRow
events_after aggregate version rows =
    order_by (λ (r r' : EventRow). leb (rank64 r.version) (rank64 r'.version))
      (select
        (λ (r : EventRow).
          str_eq r.aggregate_id aggregate && ltb (rank64 version) (rank64 r.version))
        rows)

-- ON CONFLICT (aggregate_id) DO UPDATE SET version = $2, payload = $3, created_at = NOW()
unfoldable pub upsert_snapshot : SnapshotRow → List SnapshotRow → List SnapshotRow
upsert_snapshot row [] = row ∷ []
upsert_snapshot row (r ∷ rs) =
    if str_eq r.aggregate_id row.aggregate_id then row ∷ rs else r ∷ upsert_snapshot row rs

-- QueryRow(…).Scan(…); no row is the zero Snapshot
unfoldable pub find_snapshot : String → List SnapshotRow → Snapshot
find_snapshot aggregate [] = record { aggregate_id = ""; version = 0; payload = [] }
find_snapshot aggregate (r ∷ rs) =
    if str_eq r.aggregate_id aggregate
    then record { aggregate_id = r.aggregate_id; version = r.version; payload = r.payload }
    else find_snapshot aggregate rs

module _ (pg : Server) where
  -- INSERT INTO events (…) VALUES ($1, …, $6)
  unfoldable pub insert_event : String → String → String → Int64 → Payload → Time → Exec Db ⊤
  insert_event aggregate aggregate_type type version payload occurred_at db =
      continue (call pg db) (λ _ s.
        insert_json (pg.jsonb payload)
          (λ json. record {
            id = s.next_event;
            aggregate_id = aggregate;
            aggregate_type = aggregate_type;
            event_type = type;
            version = version;
            payload = json;
            occurred_at = pg.timestamptz occurred_at;
          })
          s)

  -- for i, event := range events { … }, from index `i`
  unfoldable pub append_events : String → String → Int64 → ℕ → List StoredEvent → Exec Db ⊤
  append_events aggregate aggregate_type expected i [] = pure tt
  append_events aggregate aggregate_type expected i (e ∷ es) = do
    λ db. instead version_conflict (
        insert_event aggregate aggregate_type (event_type_string e.event_type)
          (add64 (add64 expected i) 1) e.payload e.occurred_at db)
    append_events aggregate aggregate_type expected (i + 1) es

  unfoldable pub append : String → String → Int64 → List StoredEvent → Exec Db ⊤
  append aggregate aggregate_type expected events =
      transaction pg (λ _. append_events aggregate aggregate_type expected 0 events)

  -- The rows are there once the query is answered; reading them to their end is a call of its own.
  unfoldable pub load_events_from : String → Int64 → Exec Db (List StoredEvent)
  load_events_from aggregate version db = continue (wrapping "query events" (call pg) db) (λ _ s.
      continue (call pg s)
        (λ _ s'. (ok (map scan_event (events_after aggregate version s.tables.events)), s')))

  unfoldable pub load_events : String → Exec Db (List StoredEvent)
  load_events aggregate = load_events_from aggregate 0

  abbrev pub event_store : EventStore Db
  event_store = record {
    append = append;
    load_events = load_events;
    load_events_from = load_events_from;
  }

  abbrev save_json : Option Payload → Snapshot → Time → Exec Db ⊤
  save_json none snapshot now db = (err (opaque_error "invalid input syntax for type json"), db)
  save_json (some payload) snapshot now db = (
    ok tt,
    record db {
      tables = record db.tables {
        snapshots =
            upsert_snapshot
              (record {
                aggregate_id = snapshot.aggregate_id;
                version = snapshot.version;
                payload = payload;
                created_at = now;
              })
              db.tables.snapshots;
      };
    },
  )

  unfoldable pub save_snapshot : Snapshot → Exec Db ⊤
  save_snapshot snapshot db =
      continue (call pg db) (λ now s. save_json (pg.jsonb snapshot.payload) snapshot now s)

  unfoldable pub load_snapshot : String → Exec Db Snapshot
  load_snapshot aggregate db =
      continue (call pg db) (λ _ s. (ok (find_snapshot aggregate s.tables.snapshots), s))

  abbrev pub snapshot_store : SnapshotStore Db
  snapshot_store = record { save = save_snapshot; load = load_snapshot }
