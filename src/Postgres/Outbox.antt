-- ===== src/Postgres/Outbox.antt =====
-- internal/infra/postgres/outbox.go: events and their outbox entries in one transaction, the
-- entries that are to be published, and the mark that they were.
pub mod Appending
pub mod Numbering
pub mod Apart
use ledger_engine.Prelude.{
  ⊤, ℕ, ◌+◌, Bool, true, false, not, leb, if◌then◌else◌, String, Option, none, some, List, [], ◌∷◌,
  ◌++◌, map,
}
use ledger_engine.Prelude.Int64.{Int64, add64}
use ledger_engine.Prelude.Rows.{elem, select, take, order_by}
use ledger_engine.Environment.{Time}
use ledger_engine.Errors.{Error, Result, ok, err, opaque_error, version_conflict}
use ledger_engine.Exec.{Exec, pure, wrapping, continue, ◌>>=◌, ◌>>◌}
use ledger_engine.Ledger.Event.{Payload, StoredEvent, event_type_string}
use ledger_engine.App.Ports.{OutboxAppender}
use ledger_engine.Postgres.Tables.{OutboxRow, Tables, Db}
use ledger_engine.Postgres.Server.{Server, call, instead, transaction}
use ledger_engine.Postgres.EventStore.{insert_event}

pub record OutboxEntry : Type 0 where
  pub id : ℕ
  pub aggregate_id : String
  pub aggregate_type : String
  pub event_type : String
  pub payload : Payload
  pub created_at : Time

abbrev pub with_outbox : List OutboxRow → Db → Db
with_outbox rows db = record db { tables = record db.tables { outbox = rows } }

abbrev insert_json : Option Payload → (Payload → OutboxRow) → Exec Db ⊤
insert_json none row db = (err (opaque_error "invalid input syntax for type json"), db)
insert_json (some payload) row db = (
  ok tt,
  with_outbox (db.tables.outbox ++ row payload ∷ [])
      (record db { next_outbox = db.next_outbox + 1 }),
)

abbrev pub scan_entry : OutboxRow → OutboxEntry
scan_entry r = record {
  id = r.id;
  aggregate_id = r.aggregate_id;
  aggregate_type = r.aggregate_type;
  event_type = r.event_type;
  payload = r.payload;
  created_at = r.created_at;
}

abbrev pub is_pending : OutboxRow → Bool
is_pending r = not r.published

-- WHERE published = FALSE ORDER BY created_at ASC LIMIT $1. The query is a transaction of its own,
-- so its locks are gone when it ends.
abbrev pub earlier : OutboxRow → OutboxRow → Bool
earlier r r' = leb r.created_at r'.created_at

unfoldable pub pending_batch : ℕ → List OutboxRow → List OutboxRow
pending_batch limit rows = take limit (order_by earlier (select is_pending rows))

-- UPDATE outbox SET published = TRUE, published_at = NOW() WHERE id = ANY($1)
unfoldable pub mark_row : Time → List ℕ → OutboxRow → OutboxRow
mark_row now ids r =
    if elem r.id ids then record r { published = true; published_at = some now } else r

module _ (pg : Server) where
  -- INSERT INTO outbox (…) VALUES ($1, …, $4), in a transaction that began at `start`
  unfoldable pub insert_outbox : Time → String → String → String → Payload → Exec Db ⊤
  insert_outbox start aggregate aggregate_type type payload db = continue (call pg db) (λ _ s.
      insert_json (pg.jsonb payload)
        (λ json. record {
          id = s.next_outbox;
          aggregate_id = aggregate;
          aggregate_type = aggregate_type;
          event_type = type;
          payload = json;
          published = false;
          created_at = start;
          published_at = none;
        })
        s)

  -- for i, event := range events { … }, from index `i`
  unfoldable pub append_both : Time → String → String → Int64 → ℕ → List StoredEvent → Exec Db ⊤
  append_both start aggregate aggregate_type expected i [] = pure tt
  append_both start aggregate aggregate_type expected i (e ∷ es) = do
    λ db. instead version_conflict (
        insert_event pg aggregate aggregate_type (event_type_string e.event_type)
          (add64 (add64 expected i) 1) e.payload e.occurred_at db)
    wrapping "write outbox"
        (insert_outbox start aggregate aggregate_type (event_type_string e.event_type) e.payload)
    append_both start aggregate aggregate_type expected (i + 1) es

  unfoldable pub append_with_outbox : String → String → Int64 → List StoredEvent → Exec Db ⊤
  append_with_outbox aggregate aggregate_type expected events =
      transaction pg (λ start. append_both start aggregate aggregate_type expected 0 events)

  abbrev pub outbox_appender : OutboxAppender Db
  outbox_appender = record { append_with_outbox = append_with_outbox }

  unfoldable pub fetch_unpublished : ℕ → Exec Db (List OutboxEntry)
  fetch_unpublished limit db = continue (wrapping "fetch outbox" (call pg) db) (λ _ s.
      continue (call pg s)
        (λ _ s'. (ok (map scan_entry (pending_batch limit s.tables.outbox)), s')))

  unfoldable pub mark_published : List ℕ → Exec Db ⊤
  mark_published ids db =
      continue (call pg db)
        (λ now s. (ok tt, with_outbox (map (mark_row now ids) s.tables.outbox) s))
