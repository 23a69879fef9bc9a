-- ===== src/App/OutboxWorker/Draining.antt =====
-- The outbox empties: what a poll leaves, where server and broker answer.
use ledger_engine.Prelude.{
  ℕ, zero, suc, ◌+◌, ◌-◌, ◌*◌, ◌≡◌, ◌≤◌, refl, sym, inl, inr, ap, Option-cases, ◌∙◌, Bool, true,
  not, String, none, List, [], ◌∷◌, map, length, arith,
}
use ledger_engine.Prelude.Rows.{
  In, elem, select, take, order_by, length-select-order_by, length-order_by,
}
use ledger_engine.Environment.{Time}
use ledger_engine.Errors.{ok}
use ledger_engine.Ledger.Event.{Payload}
use ledger_engine.Postgres.Tables.{OutboxRow, Db}
use ledger_engine.Postgres.Server.{Server, call}
use ledger_engine.Postgres.Outbox.{
  OutboxEntry, scan_entry, is_pending, earlier, pending_batch, mark_row, fetch_unpublished,
  mark_published,
}
use ledger_engine.App.OutboxWorker.{
  EventPublisher, Node, batch_size, publish_all, mark_all, process_entries, process_batch, polls,
}

-- How many entries wait.
abbrev pub pending : {B : Type 0} → Node B → ℕ
pending w = length (select is_pending w.db.tables.outbox)

-- The id is not among the first.
abbrev outside : List OutboxRow → OutboxRow → Bool
outside rows r = not (elem r.id (map (λ (o : OutboxRow). o.id) rows))

-- Of the rows that are marked none waits, of the others those that did.
marked_pending :
    (now : Time) (ids : List ℕ) (rows : List OutboxRow)
    → length (select is_pending (map (mark_row now ids) rows))
      ≡ length (select (λ (r : OutboxRow). not (elem r.id ids)) (select is_pending rows))
unfolding select mark_row
marked_pending now ids [] = refl
marked_pending now ids (r ∷ rows) = ground (arith, marked_pending now ids rows)

length-select-le :
    (p : OutboxRow → Bool) (rows : List OutboxRow) → length (select p rows) ≤ length rows
unfolding select
length-select-le p [] = omega arith
length-select-le p (r ∷ rows) = ground (arith, length-select-le p rows)

-- Without the first `n` rows, whose ids are all listed.
length-select-sub :
    (ids : List ℕ) (n : ℕ) (rows : List OutboxRow)
    → ((r : OutboxRow) → In r (take n rows) → elem r.id ids ≡ true)
    → length (select (λ (r : OutboxRow). not (elem r.id ids)) rows) ≤ length rows - n
unfolding select take
length-select-sub ids n [] h = omega arith
length-select-sub ids zero (r ∷ rows) h =
    omega (arith, length-select-le (λ (r : OutboxRow). not (elem r.id ids)) (r ∷ rows))
length-select-sub ids (suc n) (r ∷ rows) h =
    ground (arith, h r (inl refl), length-select-sub ids n rows (λ x there. h x (inr there)))

elem-In :
    (r : OutboxRow) (rows : List OutboxRow)
    → In r rows
    → elem r.id (map (λ (o : OutboxRow). o.id) rows) ≡ true
elem-In r [] h = absurd h
elem-In r (x ∷ rows) (inl e) = ground (arith, e)
elem-In r (x ∷ rows) (inr h) = ground (arith, elem-In r rows h)

-- What is left of the waiting rows when a batch of them is marked.
marked-le :
    (now : Time) (limit : ℕ) (rows : List OutboxRow)
    → length (
        select is_pending
          (map (mark_row now (map (λ (o : OutboxRow). o.id) (pending_batch limit rows))) rows))
      ≤ length (select is_pending rows) - limit
unfolding pending_batch
marked-le now limit rows =
    let waiting = select is_pending rows in
    let ids = map (λ (o : OutboxRow). o.id) (take limit (order_by earlier waiting)) in
    omega (
      arith,
      marked_pending now ids rows,
      length-select-order_by earlier (λ (r : OutboxRow). not (elem r.id ids)) waiting,
      length-order_by earlier waiting,
      length-select-sub ids limit (order_by earlier waiting)
          (λ r here. elem-In r (take limit (order_by earlier waiting)) here),
    )

-- No batch is empty where something waits.
pending_batch-nil :
    (limit : ℕ) (rows : List OutboxRow)
    → pending_batch (suc limit) rows ≡ []
    → length (select is_pending rows) ≡ 0
unfolding pending_batch take
pending_batch-nil limit rows h =
    of_ordered (order_by earlier (select is_pending rows)) h
      (length-order_by earlier (select is_pending rows))
  where
    of_ordered :
        (l : List OutboxRow)
        → take (suc limit) l ≡ []
        → length l ≡ length (select is_pending rows)
        → length (select is_pending rows) ≡ 0
    of_ordered [] e q = omega arith
    of_ordered (r ∷ l) e q = cc

module _ {B : Type 0} (pg : Server) (publisher : EventPublisher B) where
  -- A poll makes calls, and takes none back.
  process_batch-calls : (w : Node B) → w.db.calls ≤ (process_batch pg publisher w).db.calls
  unfolding process_batch fetch_unpublished mark_published call
  process_batch-calls w = elim (Option-cases (pg.fault w.db.calls)) [
    | inr (e, down) ↦ rw down (omega arith)
    | inl up ↦ rw up (elim (Option-cases (pg.fault (w.db.calls + 1))) [
      | inr (e, down) ↦ rw down (omega arith)
      | inl up' ↦ rw up' (of_batch (pending_batch batch_size w.db.tables.outbox))
    ])
  ]
    where
      fetched : Db
      fetched = record w.db { calls = w.db.calls + 1 + 1 }

      of_ids : (p : List ℕ × B) → w.db.calls ≤ (mark_all pg publisher p fetched).db.calls
      of_ids ([], b) = omega arith
      of_ids (id ∷ ids, b) = elim (Option-cases (pg.fault (w.db.calls + 1 + 1))) [
        | inl up ↦ rw up (omega arith)
        | inr (e, down) ↦ rw down (omega arith)
      ]

      of_batch :
          (rows : List OutboxRow)
          → w.db.calls
            ≤ (process_entries pg publisher (ok (map scan_entry rows), fetched) w.broker).db.calls
      of_batch [] = omega arith
      of_batch (r ∷ rows) = of_ids (publish_all pg publisher (map scan_entry (r ∷ rows)) w.broker)

module _ {B : Type 0} (pg : Server) (publisher : EventPublisher B) (since : ℕ)
    (up : (n : ℕ) → since ≤ n → pg.fault n ≡ none)
    (accepts : (type aggregate : String) (payload : Payload) (b : B)
      → (publisher.publish type aggregate payload b).0 ≡ ok tt) where
  publish_all-ids :
      (es : List OutboxEntry) (b : B)
      → (publish_all pg publisher es b).0 ≡ map (λ (e : OutboxEntry). e.id) es
  unfolding publish_all
  publish_all-ids [] b = refl
  publish_all-ids (e ∷ es) b =
      let b' = (publisher.publish e.event_type e.aggregate_id e.payload b).1 in
      ground (arith, accepts e.event_type e.aggregate_id e.payload b, publish_all-ids es b')

  scan_entry-ids :
      (rows : List OutboxRow)
      → map (λ (e : OutboxEntry). e.id) (map scan_entry rows) ≡ map (λ (o : OutboxRow). o.id) rows
  scan_entry-ids [] = refl
  scan_entry-ids (r ∷ rows) = ap (λ l. r.id ∷ l) (scan_entry-ids rows)

  -- Once the server answers every call, and if the broker takes every message, a poll leaves at most
  -- the entries that wait less 50.
  pub process_batch-pending :
      (w : Node B)
      → since ≤ w.db.calls
      → pending (process_batch pg publisher w) ≤ pending w - batch_size
  unfolding process_batch fetch_unpublished mark_published call
  process_batch-pending w reached =
      rw (up w.db.calls reached, up (w.db.calls + 1) (omega (arith, reached)))
        (of_batch (pending_batch batch_size outbox) refl)
    where
      outbox : List OutboxRow
      outbox = w.db.tables.outbox

      fetched : Db
      fetched = record w.db { calls = w.db.calls + 1 + 1 }

      of_ids :
          (r : OutboxRow) (rows : List OutboxRow)
          → pending_batch batch_size outbox ≡ r ∷ rows
          → (p : List ℕ × B) → p.0 ≡ map (λ (o : OutboxRow). o.id) (pending_batch batch_size outbox)
          → pending (mark_all pg publisher p fetched) ≤ pending w - batch_size
      of_ids r rows e ([], b) h = cc (h, ap (map (λ (o : OutboxRow). o.id)) e)
      of_ids r rows e (id ∷ ids, b) h =
          rw (up (w.db.calls + 1 + 1) (omega (arith, reached)), h)
            (marked-le (pg.now (w.db.calls + 1 + 1)) batch_size outbox)

      of_batch :
          (rows : List OutboxRow)
          → pending_batch batch_size outbox ≡ rows
          → pending (process_entries pg publisher (ok (map scan_entry rows), fetched) w.broker)
            ≤ pending w - batch_size
      of_batch [] e = omega (arith, pending_batch-nil 49 outbox e)
      of_batch (r ∷ rows) e =
          of_ids r rows e (publish_all pg publisher (map scan_entry (r ∷ rows)) w.broker) (
            publish_all-ids (map scan_entry (r ∷ rows)) w.broker
            ∙ scan_entry-ids (r ∷ rows)
            ∙ sym (ap (map (λ (o : OutboxRow). o.id)) e))

  -- If, from the state of the node on, the server answers every call and the broker takes every
  -- message, n polls of 50 entries leave no entry waiting, where at most 50 n do.
  pub polls-drain :
      (n : ℕ) (w : Node B)
      → since ≤ w.db.calls
      → pending w ≤ n * batch_size
      → pending (polls pg publisher n w) ≡ 0
  polls-drain zero w reached h = omega (arith, h)
  polls-drain (suc n) w reached h =
      polls-drain n (process_batch pg publisher w)
        (omega (arith, reached, process_batch-calls pg publisher w))
        (omega (arith, h, process_batch-pending w reached))
