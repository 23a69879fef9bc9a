-- ===== src/App/OutboxWorker/Delivery.antt =====
-- Delivery at least once: writers that append events, and polls of the worker, in any order.
pub mod Invariant
pub mod Eventual
pub mod Safety
use ledger_engine.Prelude.{
  ⊤, ℕ, ◌+◌, ◌≡◌, refl, sym, ap, ◌∙◌, inl, inr, ◌⊎◌, Bool, Bool-cases, true, false, ◌==◌, ==_iff,
  String, Option, none, some, List, [], ◌∷◌, ◌++◌, map, arith,
}
use ledger_engine.Prelude.Int64.{Int64}
use ledger_engine.Prelude.Rows.{
  In, elem, In-append, In-append_left, In-append_right, In-select, In-take, In-order_by, In-map,
  map-In,
}
use ledger_engine.Environment.{Time}
use ledger_engine.Errors.{Error, Result, ok, err, Result-cases}
use ledger_engine.Exec.Rules.{Outcome}
use ledger_engine.Ledger.Event.{Payload, StoredEvent}
use ledger_engine.Postgres.Tables.{EventRow, OutboxRow, Tables, Db, empty}
use ledger_engine.Postgres.Server.{Server, call}
use ledger_engine.Postgres.Outbox.{
  OutboxEntry, scan_entry, is_pending, pending_batch, mark_row, fetch_unpublished, mark_published,
  append_with_outbox,
}
use ledger_engine.Postgres.Outbox.Appending.{Mirrors, Mirrored, Doubled, append_with_outbox-Outcome}
use ledger_engine.Postgres.Outbox.Numbering.{
  IsNumbered, mark-IsNumbered, append_with_outbox-IsNumbered,
}
use ledger_engine.App.OutboxWorker.{
  EventPublisher, Node, batch_size, note, publish_all, mark_all, process_entries, process_batch,
}

pub record Message : Type 0 where
  pub event_type : String
  pub aggregate_id : String
  pub payload : Payload

abbrev pub entry_message : OutboxEntry → Message
entry_message e = record {
  event_type = e.event_type;
  aggregate_id = e.aggregate_id;
  payload = e.payload;
}

abbrev pub row_message : OutboxRow → Message
row_message o = record {
  event_type = o.event_type;
  aggregate_id = o.aggregate_id;
  payload = o.payload;
}

-- What is relied on of a broker: a message that it took without an error is delivered, and stays so.
pub record IsBroker {B : Type 0} (publisher : EventPublisher B) : Type 1 where
  pub delivered : B → Message → Type 0
  pub delivers :
      (m : Message) (b : B)
      → (publisher.publish m.event_type m.aggregate_id m.payload b).0 ≡ ok tt
      → delivered (publisher.publish m.event_type m.aggregate_id m.payload b).1 m
  pub remembers :
      (m n : Message) (b : B)
      → delivered b m
      → delivered (publisher.publish n.event_type n.aggregate_id n.payload b).1 m

module _ {B : Type 0} (pg : Server) (publisher : EventPublisher B)
    (broker : IsBroker publisher) where
  open broker use {delivered}

  pub publish_all-remembers :
      (es : List OutboxEntry) (b : B) (m : Message)
      → delivered b m
      → delivered (publish_all pg publisher es b).1 m
  unfolding publish_all
  publish_all-remembers [] b m h = h
  publish_all-remembers (e ∷ es) b m h =
      let b' = (publisher.publish e.event_type e.aggregate_id e.payload b).1 in
      of_note (publisher.publish e.event_type e.aggregate_id e.payload b).0
        (publish_all pg publisher es b')
        (publish_all-remembers es b' m (broker.remembers m (entry_message e) b h))
    where
      of_note : (r : Result ⊤) (p : List ℕ × B) → delivered p.1 m → delivered (note r e.id p).1 m
      of_note (ok _) p d = d
      of_note (err _) p d = d

  -- Every id that is to be marked is that of an entry that was delivered.
  pub publish_all-delivers :
      (es : List OutboxEntry) (b : B) (id : ℕ)
      → elem id (publish_all pg publisher es b).0 ≡ true
      → (e : OutboxEntry) × In e es
        × (e.id ≡ id)
        × delivered (publish_all pg publisher es b).1 (entry_message e)
  unfolding publish_all
  publish_all-delivers [] b id h = cc
  publish_all-delivers (e ∷ es) b id h =
      let b' = (publisher.publish e.event_type e.aggregate_id e.payload b).1 in
      let rest = publish_all-delivers es b' id in
      of_note (publisher.publish e.event_type e.aggregate_id e.payload b).0
        (publish_all pg publisher es b')
        (λ q. publish_all-remembers es b' (entry_message e) (broker.delivers (entry_message e) b q))
        rest h
    where
      of_note :
          (r : Result ⊤) (p : List ℕ × B)
          → (r ≡ ok tt → delivered p.1 (entry_message e))
          → (elem id p.0 ≡ true
              → (x : OutboxEntry) × In x es × (x.id ≡ id) × delivered p.1 (entry_message x))
          → elem id (note r e.id p).0 ≡ true
          → (x : OutboxEntry) × In x (e ∷ es)
            × (x.id ≡ id)
            × delivered (note r e.id p).1 (entry_message x)
      of_note (ok _) p here later q = elim (Bool-cases (id == e.id)) [
        | inl same ↦ (e, inl refl, sym ((==_iff id e.id).0 same), here refl)
        | inr other ↦
            let (x, there, i, d) = later (ground (arith, q, other)) in (x, inr there, i, d)
      ]
      of_note (err _) p here later q = let (x, there, i, d) = later q in (x, inr there, i, d)
