-- ===== src/App/OutboxWorker.antt =====
-- internal/app/outbox_worker.go: one poll of the outbox. Start calls it at every tick. What is only
-- logged leaves no trace here.
pub mod Delivery
pub mod Draining
pub mod Log
use ledger_engine.Prelude.{⊤, ℕ, zero, suc, String, List, [], ◌∷◌}
use ledger_engine.Errors.{Error, Result, ok, err}
use ledger_engine.Exec.{Exec}
use ledger_engine.Ledger.Event.{Payload}
use ledger_engine.Postgres.Tables.{Db}
use ledger_engine.Postgres.Server.{Server}
use ledger_engine.Postgres.Outbox.{OutboxEntry, fetch_unpublished, mark_published}

-- The port to a broker with states `B`: event type, aggregate and payload.
pub record EventPublisher (B : Type 0) : Type 0 where
  pub publish : String → String → Payload → Exec B ⊤

-- The database and the broker that a worker is between.
pub record Node (B : Type 0) : Type 0 where
  pub db : Db
  pub broker : B

-- batchSize in NewOutboxWorker
abbrev pub batch_size : ℕ
batch_size = 50

-- publishedIDs = append(publishedIDs, entry.ID), or continue after an error
abbrev note : {B : Type 0} → Result ⊤ → ℕ → List ℕ × B → List ℕ × B
note (ok _) id (ids, b) = (id ∷ ids, b)
note (err _) id (ids, b) = (ids, b)

module _ {B : Type 0} (pg : Server) (publisher : EventPublisher B) where
  -- The loop over the entries: the ids that were published, and the broker afterwards.
  unfoldable pub publish_all : List OutboxEntry → B → List ℕ × B
  publish_all [] b = ([], b)
  publish_all (e ∷ es) b =
      let (r, b') = publisher.publish e.event_type e.aggregate_id e.payload b in
      note r e.id (publish_all es b')

  -- if len(publishedIDs) > 0 { MarkPublished }, whose error is only logged
  abbrev mark_all : List ℕ × B → Db → Node B
  mark_all ([], b) db = record { db = db; broker = b }
  mark_all (id ∷ ids, b) db = record { db = (mark_published pg (id ∷ ids) db).1; broker = b }

  abbrev process_entries : Result (List OutboxEntry) × Db → B → Node B
  process_entries (err _, db) b = record { db = db; broker = b }
  process_entries (ok [], db) b = record { db = db; broker = b }
  process_entries (ok (e ∷ es), db) b = mark_all (publish_all (e ∷ es) b) db

  unfoldable pub process_batch : Node B → Node B
  process_batch w = process_entries (fetch_unpublished pg batch_size w.db) w.broker

  -- case <-ticker.C in Start, `n` times: nothing else is done between the ticks.
  abbrev pub polls : ℕ → Node B → Node B
  polls zero w = w
  polls (suc n) w = polls n (process_batch w)
