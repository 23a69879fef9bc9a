-- ===== src/App/OutboxWorker/Delivery/Safety.antt =====
-- No event is lost between the event store and the broker: an invariant of all nodes that writers
-- and polls reach.
use ledger_engine.Prelude.{
  ℕ, ◌+◌, ◌≡◌, refl, sym, ap, ◌∙◌, inl, inr, Option-cases, true, String, List, [], ◌∷◌, map,
}
use ledger_engine.Prelude.Int64.{Int64}
use ledger_engine.Prelude.Rows.{In, elem, In-map}
use ledger_engine.Errors.{ok}
use ledger_engine.Ledger.Event.{StoredEvent}
use ledger_engine.Postgres.Tables.{OutboxRow, Db, empty}
use ledger_engine.Postgres.Server.{Server, call}
use ledger_engine.Postgres.Outbox.{
  scan_entry, pending_batch, fetch_unpublished, mark_published, append_with_outbox,
}
use ledger_engine.App.OutboxWorker.{
  EventPublisher, Node, batch_size, publish_all, mark_all, process_entries, process_batch,
}
use ledger_engine.App.OutboxWorker.Delivery.{
  Message, row_message, IsBroker, publish_all-remembers, publish_all-delivers,
}
use ledger_engine.App.OutboxWorker.Delivery.Invariant.{
  pending_batch-In, IsSafe, writing-IsSafe, Unmarked-IsSafe, marking-IsSafe,
}

module _ {B : Type 0} (pg : Server) (publisher : EventPublisher B)
    (broker : IsBroker publisher) where
  open broker use {delivered}

  -- A writer appends events with their entries, or the worker polls.
  pub data Step (w w' : Node B) : Type 0 where
    writing :
        (aggregate aggregate_type : String) (expected : Int64) (es : List StoredEvent)
        → w' ≡ record w { db = (append_with_outbox pg aggregate aggregate_type expected es w.db).1 }
        → Step w w'
    polling : w' ≡ process_batch pg publisher w → Step w w'

  pub data Reach (start : Node B) : Node B → Type 0 where
    here : Reach start start
    next : {w w' : Node B} → Reach start w → Step w w' → Reach start w'

  pub polling-IsSafe :
      (w : Node B)
      → IsSafe pg publisher broker w
      → IsSafe pg publisher broker (process_batch pg publisher w)
  unfolding process_batch fetch_unpublished mark_published call
  polling-IsSafe w safe = elim (Option-cases (pg.fault w.db.calls)) [
    | inl up ↦ rw up (elim (Option-cases (pg.fault (w.db.calls + 1))) [
      | inl up' ↦ rw up' (of_batch (pending_batch batch_size outbox) refl)
      | inr (e, down) ↦ rw down (idle fetched w.broker (λ m h. h) refl refl)
    ])
    | inr (e, down) ↦ rw down (idle queried w.broker (λ m h. h) refl refl)
  ]
    where
      outbox : List OutboxRow
      outbox = w.db.tables.outbox

      queried : Db
      queried = record w.db { calls = w.db.calls + 1 }

      fetched : Db
      fetched = record w.db { calls = w.db.calls + 1 + 1 }

      idle :
          (db : Db) (b : B)
          → ((m : Message) → delivered w.broker m → delivered b m)
          → db.tables ≡ w.db.tables
          → db.next_outbox ≡ w.db.next_outbox
          → IsSafe pg publisher broker (record { db = db; broker = b })
      idle db b known same sequence =
          Unmarked-IsSafe pg publisher broker w (record { db = db; broker = b })
            (record { tables = same; next = sequence; known = known }) safe

      reached :
          (rows : List OutboxRow)
          → pending_batch batch_size outbox ≡ rows
          → (id : ℕ) → elem id (publish_all pg publisher (map scan_entry rows) w.broker).0 ≡ true
          → (o : OutboxRow) × In o outbox
            × (o.id ≡ id)
            × delivered (publish_all pg publisher (map scan_entry rows) w.broker).1 (row_message o)
      reached rows e id h =
          let (x, there, same, d) =
            publish_all-delivers pg publisher broker (map scan_entry rows) w.broker id h in
          let (o, inside, scanned) = In-map scan_entry x rows there in
          (
            o,
            pending_batch-In batch_size o outbox (rw e inside),
            ap (λ y. y.id) (sym scanned) ∙ same,
            rw scanned at d,
          )

      of_ids :
          (p : List ℕ × B)
          → ((m : Message) → delivered w.broker m → delivered p.1 m)
          → ((id : ℕ)
              → elem id p.0 ≡ true
              → (o : OutboxRow) × In o outbox × (o.id ≡ id) × delivered p.1 (row_message o))
          → IsSafe pg publisher broker (mark_all pg publisher p fetched)
      of_ids ([], b) known listed = idle fetched b known refl refl
      of_ids (id ∷ ids, b) known listed = elim (Option-cases (pg.fault (w.db.calls + 1 + 1))) [
        | inl up ↦ rw up (
            marking-IsSafe pg publisher broker w
              (record { db = record w.db { calls = w.db.calls + 1 + 1 + 1 }; broker = b })
              (pg.now (w.db.calls + 1 + 1)) (id ∷ ids) w.db
              (record { tables = refl; next = refl; known = known }) listed safe)
        | inr (e, down) ↦ rw down (idle _ b known refl refl)
      ]

      of_batch :
          (rows : List OutboxRow)
          → pending_batch batch_size outbox ≡ rows
          → IsSafe pg publisher broker
              (process_entries pg publisher (ok (map scan_entry rows), fetched) w.broker)
      of_batch [] e = idle fetched w.broker (λ m h. h) refl refl
      of_batch (r ∷ rows) e =
          of_ids (publish_all pg publisher (map scan_entry (r ∷ rows)) w.broker)
            (publish_all-remembers pg publisher broker (map scan_entry (r ∷ rows)) w.broker)
            (reached (r ∷ rows) e)

  -- For a broker that delivers what it takes without an error and keeps what was delivered:
  -- whatever the server answers, at every node that writers and polls of the worker reach from an
  -- empty database, in any order, each event row has an outbox row that carries it, each outbox row
  -- marked as published was delivered, and the ids of the outbox rows are distinct and below the
  -- next one.
  pub Reach-IsSafe :
      (b : B) (w : Node B)
      → Reach (record { db = empty; broker = b }) w
      → IsSafe pg publisher broker w
  Reach-IsSafe b _ here = record {
    covered = λ r inside. absurd inside;
    backed = λ o inside marked. absurd inside;
    numbered = record {
      below = λ o inside. absurd inside;
      distinct = λ o o' inside. absurd inside;
    };
  }
  Reach-IsSafe b _ (next {w} there step) = of_step (Reach-IsSafe b w there) step
    where
      of_step :
          {w w' : Node B} → IsSafe pg publisher broker w → Step w w' → IsSafe pg publisher broker w'
      of_step {w} safe (writing aggregate aggregate_type expected es e) =
          rw e (writing-IsSafe pg publisher broker aggregate aggregate_type expected es w safe)
      of_step {w} safe (polling e) = rw e (polling-IsSafe w safe)
