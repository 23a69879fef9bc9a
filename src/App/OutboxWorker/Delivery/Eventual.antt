-- ===== src/App/OutboxWorker/Delivery/Eventual.antt =====
-- Every event that was ever written reaches the broker, once it and the server answer.
use ledger_engine.Prelude.{
  ℕ, ◌+◌, zero, suc, ◌*◌, ◌≡◌, ◌≤◌, refl, ap, ◌∙◌, inl, inr, Option-cases, true, String, none, List,
  [], ◌∷◌, map, length, arith,
}
use ledger_engine.Prelude.Rows.{In, select}
use ledger_engine.Errors.{ok}
use ledger_engine.Ledger.Event.{Payload}
use ledger_engine.Postgres.Tables.{EventRow, OutboxRow, Db, empty}
use ledger_engine.Postgres.Server.{Server, call}
use ledger_engine.Postgres.Outbox.{
  scan_entry, is_pending, pending_batch, fetch_unpublished, mark_published,
}
use ledger_engine.Postgres.Outbox.Appending.{Mirrors}
use ledger_engine.App.OutboxWorker.{
  EventPublisher, Node, batch_size, publish_all, mark_all, process_entries, process_batch, polls,
}
use ledger_engine.App.OutboxWorker.Draining.{pending, polls-drain}
use ledger_engine.App.OutboxWorker.Delivery.{Message, row_message, IsBroker}
use ledger_engine.App.OutboxWorker.Delivery.Invariant.{IsSafe}
use ledger_engine.App.OutboxWorker.Delivery.Safety.{polling, Reach, next, Reach-IsSafe}

unmarked-nil :
    (rows : List OutboxRow) (o : OutboxRow)
    → length (select is_pending rows) ≡ 0
    → In o rows
    → o.published ≡ true
unfolding select
unmarked-nil [] o h inside = absurd inside
unmarked-nil (r ∷ rows) o h (inl e) = ground (arith, h, e)
unmarked-nil (r ∷ rows) o h (inr there) = ground (arith, h, unmarked-nil rows o)

-- What the broker is to be told of an event.
abbrev pub event_message : EventRow → Message
event_message r = record {
  event_type = r.event_type;
  aggregate_id = r.aggregate_id;
  payload = r.payload;
}

Mirrors-message : (r : EventRow) (o : OutboxRow) → Mirrors r o → event_message r ≡ row_message o
Mirrors-message r o m = cc (m.event_type, m.aggregate_id, m.payload)

module _ {B : Type 0} (pg : Server) (publisher : EventPublisher B) where
  process_batch-events :
      (w : Node B) → (process_batch pg publisher w).db.tables.events ≡ w.db.tables.events
  unfolding process_batch fetch_unpublished mark_published call
  process_batch-events w = elim (Option-cases (pg.fault w.db.calls)) [
    | inl up ↦ rw up (elim (Option-cases (pg.fault (w.db.calls + 1))) [
      | inl up' ↦ rw up' (of_batch (pending_batch batch_size w.db.tables.outbox))
      | inr (e, down) ↦ rw down refl
    ])
    | inr (e, down) ↦ rw down refl
  ]
    where
      fetched : Db
      fetched = record w.db { calls = w.db.calls + 1 + 1 }

      of_ids :
          (p : List ℕ × B) → (mark_all pg publisher p fetched).db.tables.events ≡ w.db.tables.events
      of_ids ([], b) = refl
      of_ids (id ∷ ids, b) = elim (Option-cases (pg.fault (w.db.calls + 1 + 1))) [
        | inl up ↦ rw up refl
        | inr (e, down) ↦ rw down refl
      ]

      of_batch :
          (rows : List OutboxRow)
          → (process_entries pg publisher
              (ok (map scan_entry rows), fetched)
              w.broker).db.tables.events
            ≡ w.db.tables.events
      of_batch [] = refl
      of_batch (r ∷ rows) = of_ids (publish_all pg publisher (map scan_entry (r ∷ rows)) w.broker)

  polls-events :
      (n : ℕ) (w : Node B) → (polls pg publisher n w).db.tables.events ≡ w.db.tables.events
  polls-events zero w = refl
  polls-events (suc n) w = polls-events n (process_batch pg publisher w) ∙ process_batch-events w

module _ {B : Type 0} (pg : Server) (publisher : EventPublisher B)
    (broker : IsBroker publisher) where
  open broker use {delivered}

  -- Where no event was lost and nothing waits, all are delivered.
  pub IsSafe-delivers :
      (since : ℕ) (up : (n : ℕ) → since ≤ n → pg.fault n ≡ none)
      (accepts : (type aggregate : String) (payload : Payload) (b : B)
        → (publisher.publish type aggregate payload b).0 ≡ ok tt)
      (n : ℕ) (w w' : Node B)
      → w' ≡ polls pg publisher n w
      → IsSafe pg publisher broker w'
      → since ≤ w.db.calls
      → pending w ≤ n * batch_size
      → (r : EventRow) → In r w.db.tables.events
      → delivered w'.broker (event_message r)
  IsSafe-delivers since up accepts n w w' e safe reached enough r inside =
      let kept : w'.db.tables.events ≡ w.db.tables.events =
        ap (λ (x : Node B). x.db.tables.events) e ∙ polls-events pg publisher n w in
      let none_waits : pending w' ≡ 0 =
        ap (λ (x : Node B). pending x) e
        ∙ polls-drain pg publisher since up accepts n w reached enough in
      let (o, there, same) = safe.covered r (rw kept inside) in
      let marked = unmarked-nil w'.db.tables.outbox o none_waits there in
      rw (Mirrors-message r o same) (safe.backed o there marked)

  polls-Reach :
      (start : Node B) (n : ℕ) (w : Node B)
      → Reach pg publisher broker start w
      → Reach pg publisher broker start (polls pg publisher n w)
  polls-Reach start zero w there = there
  polls-Reach start (suc n) w there =
      polls-Reach start n (process_batch pg publisher w) (next there (polling refl))

  -- For a broker that delivers what it takes without an error and keeps what was delivered: at any
  -- node that writers and polls reach from an empty database, whatever failed on the way, if from
  -- then on the server answers every call and the broker takes every message, n polls of 50
  -- entries, where at most 50 n wait, leave every event of the event table delivered.
  pub polls-deliver :
      (since : ℕ) (up : (n : ℕ) → since ≤ n → pg.fault n ≡ none)
      (accepts : (type aggregate : String) (payload : Payload) (b : B)
        → (publisher.publish type aggregate payload b).0 ≡ ok tt)
      (b : B) (w : Node B) (n : ℕ)
      → Reach pg publisher broker (record { db = empty; broker = b }) w
      → since ≤ w.db.calls
      → pending w ≤ n * batch_size
      → (r : EventRow) → In r w.db.tables.events
      → delivered (polls pg publisher n w).broker (event_message r)
  polls-deliver since up accepts b w n there reached enough r inside =
      IsSafe-delivers since up accepts n w (polls pg publisher n w) refl
        (Reach-IsSafe pg publisher broker b (polls pg publisher n w)
          (polls-Reach (record { db = empty; broker = b }) n w there))
        reached enough r inside
