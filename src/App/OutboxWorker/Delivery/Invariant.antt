-- ===== src/App/OutboxWorker/Delivery/Invariant.antt =====
-- No event is lost between the event store and the broker: what an append and a mark keep.
use ledger_engine.Prelude.{
  ⊤, ℕ, ◌≡◌, refl, ap, inl, inr, Bool-cases, true, false, String, List, [], ◌∷◌, ◌++◌, map, arith,
}
use ledger_engine.Prelude.Int64.{Int64}
use ledger_engine.Prelude.Rows.{
  In, elem, select, order_by, In-append, In-append_left, In-append_right, In-select, In-take,
  In-order_by, In-map, map-In,
}
use ledger_engine.Environment.{Time}
use ledger_engine.Errors.{Result, ok, err}
use ledger_engine.Exec.Rules.{Outcome}
use ledger_engine.Ledger.Event.{StoredEvent}
use ledger_engine.Postgres.Tables.{EventRow, OutboxRow, Db}
use ledger_engine.Postgres.Server.{Server}
use ledger_engine.Postgres.Outbox.{
  is_pending, earlier, pending_batch, mark_row, with_outbox, append_with_outbox,
}
use ledger_engine.Postgres.Outbox.Appending.{Mirrors, Mirrored, Doubled, append_with_outbox-Outcome}
use ledger_engine.Postgres.Outbox.Numbering.{
  IsNumbered, mark-IsNumbered, append_with_outbox-IsNumbered,
}
use ledger_engine.App.OutboxWorker.{EventPublisher, Node}
use ledger_engine.App.OutboxWorker.Delivery.{Message, row_message, IsBroker}

-- The row at the end, or one of those before.
mirror_of :
    (rows : List EventRow) (entries : List OutboxRow) (r : EventRow)
    → Mirrored rows entries
    → In r rows
    → (o : OutboxRow) × In o entries × Mirrors r o
mirror_of [] entries r m h = absurd h
mirror_of (x ∷ rows) [] r m h = absurd m
mirror_of (x ∷ rows) (o ∷ entries) r m (inl e) = (o, inl refl, rw e m.0)
mirror_of (x ∷ rows) (o ∷ entries) r m (inr h) =
    let (o', there, same) = mirror_of rows entries r m.2 h in (o', inr there, same)

Mirrored-pending :
    (rows : List EventRow) (entries : List OutboxRow) (o : OutboxRow)
    → Mirrored rows entries
    → In o entries
    → o.published ≡ false
Mirrored-pending rows [] o m h = absurd h
Mirrored-pending [] (x ∷ entries) o m h = absurd m
Mirrored-pending (r ∷ rows) (x ∷ entries) o m (inl e) = rw e m.1
Mirrored-pending (r ∷ rows) (x ∷ entries) o m (inr h) = Mirrored-pending rows entries o m.2 h

pub pending_batch-In :
    (limit : ℕ) (o : OutboxRow) (rows : List OutboxRow)
    → In o (pending_batch limit rows)
    → In o rows
unfolding pending_batch
pending_batch-In limit o rows h =
    (In-select is_pending o rows (
      In-order_by earlier o (select is_pending rows)
        (In-take limit o (order_by earlier (select is_pending rows)) h))).0

module _ {B : Type 0} (pg : Server) (publisher : EventPublisher B)
    (broker : IsBroker publisher) where
  open broker use {delivered}

  -- Every event row has an outbox row that carries it, every outbox row that is marked as published
  -- has been delivered, and their ids are those of a sequence.
  pub record IsSafe (w : Node B) : Type 0 where
    pub covered :
        (r : EventRow)
        → In r w.db.tables.events
        → (o : OutboxRow) × In o w.db.tables.outbox × Mirrors r o
    pub backed :
        (o : OutboxRow)
        → In o w.db.tables.outbox
        → o.published ≡ true
        → delivered w.broker (row_message o)
    pub numbered : IsNumbered w.db.next_outbox w.db.tables.outbox

  Doubled-IsSafe :
      (aggregate aggregate_type : String) (expected : Int64) (es : List StoredEvent) (w : Node B)
      (db : Db)
      → Doubled pg aggregate aggregate_type expected 0 es w.db.tables db.tables
      → IsNumbered db.next_outbox db.tables.outbox
      → IsSafe w
      → IsSafe (record w { db = db })
  Doubled-IsSafe aggregate aggregate_type expected es w db d n safe =
      let old = w.db.tables in
      let events : db.tables.events ≡ old.events ++ d.rows = ap (λ t. t.events) d.tables in
      let outbox : db.tables.outbox ≡ old.outbox ++ d.entries = ap (λ t. t.outbox) d.tables in
      record {
        covered = λ r inside.
            rw outbox (elim (In-append r old.events d.rows (rw events at inside)) [
              | inl before ↦
                  let (o, there, same) = safe.covered r before in
                  (o, In-append_left o old.outbox d.entries there, same)
              | inr fresh ↦
                  let (o, there, same) = mirror_of d.rows d.entries r d.mirrored fresh in
                  (o, In-append_right o old.outbox d.entries there, same)
            ]);
        backed = λ o inside marked. elim (In-append o old.outbox d.entries (rw outbox at inside)) [
          | inl before ↦ safe.backed o before marked
          | inr fresh ↦ absurd (cc (Mirrored-pending d.rows d.entries o d.mirrored fresh, marked))
        ];
        numbered = n;
      }

  pub writing-IsSafe :
      (aggregate aggregate_type : String) (expected : Int64) (es : List StoredEvent) (w : Node B)
      → IsSafe w
      → IsSafe
          (record w { db = (append_with_outbox pg aggregate aggregate_type expected es w.db).1 })
  writing-IsSafe aggregate aggregate_type expected es w safe =
      of_outcome (append_with_outbox pg aggregate aggregate_type expected es w.db)
        (append_with_outbox-Outcome pg aggregate aggregate_type expected es w.db)
        (append_with_outbox-IsNumbered pg aggregate aggregate_type expected es w.db safe.numbered)
    where
      of_outcome :
          (r : Result ⊤ × Db)
          → Outcome
              (λ _ s'. Doubled pg aggregate aggregate_type expected 0 es w.db.tables s'.tables)
              (λ s'. s'.tables ≡ w.db.tables)
              r
          → IsNumbered r.1.next_outbox r.1.tables.outbox
          → IsSafe (record w { db = r.1 })
      of_outcome (ok _, db) d n = Doubled-IsSafe aggregate aggregate_type expected es w db d n safe
      of_outcome (err e, db) same n = record {
        covered = rw same safe.covered;
        backed = rw same safe.backed;
        numbered = n;
      }

  -- The tables are as they were, and the broker knows what it knew.
  pub record Unmarked (w w' : Node B) : Type 0 where
    pub tables : w'.db.tables ≡ w.db.tables
    pub next : w'.db.next_outbox ≡ w.db.next_outbox
    pub known : (m : Message) → delivered w.broker m → delivered w'.broker m

  pub Unmarked-IsSafe : (w w' : Node B) → Unmarked w w' → IsSafe w → IsSafe w'
  Unmarked-IsSafe w w' u safe = record {
    covered = rw u.tables safe.covered;
    backed =
        λ o inside marked. u.known (row_message o) (safe.backed o (rw u.tables at inside) marked);
    numbered = rw (u.tables, u.next) safe.numbered;
  }

  mark_row-message :
      (now : Time) (ids : List ℕ) (o : OutboxRow) → row_message (mark_row now ids o) ≡ row_message o
  unfolding mark_row
  mark_row-message now ids o = ground arith

  mark_row-Mirrors :
      (now : Time) (ids : List ℕ) (r : EventRow) (o : OutboxRow)
      → Mirrors r o
      → Mirrors r (mark_row now ids o)
  unfolding mark_row
  mark_row-Mirrors now ids r o m = ground arith

  -- The ids are all of rows that have been delivered.
  pub marking-IsSafe :
      (w w' : Node B) (now : Time) (ids : List ℕ) (db : Db)
      → Unmarked w w'
      → ((id : ℕ)
          → elem id ids ≡ true
          → (o : OutboxRow) × In o w.db.tables.outbox
            × (o.id ≡ id)
            × delivered w'.broker (row_message o))
      → IsSafe w
      → IsSafe (record w' { db = with_outbox (map (mark_row now ids) w'.db.tables.outbox) w'.db })
  unfolding mark_row
  marking-IsSafe w w' now ids db u reached safe = record {
    covered = λ r inside.
        let (o, there, same) = safe.covered r (rw u.tables at inside) in
        rw u.tables (
          (
            mark_row now ids o,
            map-In (mark_row now ids) o w.db.tables.outbox there,
            mark_row-Mirrors now ids r o same,
          ));
    backed = λ o inside marked.
        let (x, there, e) =
          In-map (mark_row now ids) o w.db.tables.outbox (rw u.tables at inside) in
        rw e (
          rw (mark_row-message now ids x) (elim (Bool-cases (elem x.id ids)) [
            | inl listed ↦
                let (y, there', same, d) = reached x.id listed in
                rw (← safe.numbered.distinct y x there' there same) d
            | inr unlisted ↦
                u.known (row_message x) (safe.backed x there (ground (arith, e, marked, unlisted)))
          ]));
    numbered =
        rw (u.tables, u.next)
          (mark-IsNumbered w.db.next_outbox now ids w.db.tables.outbox safe.numbered);
  }
