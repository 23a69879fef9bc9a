-- ===== src/Postgres/Outbox/Numbering.antt =====
-- The ids of the outbox: a sequence hands each out once.
use ledger_engine.Prelude.{
  ℕ, ◌+◌, ◌≡◌, ◌≤◌, ◌<◌, refl, inl, inr, Option-cases, String, List, [], ◌∷◌, ◌++◌, map, arith,
}
use ledger_engine.Prelude.Int64.{Int64, add64}
use ledger_engine.Prelude.Rows.{In, In-append, In-map}
use ledger_engine.Environment.{Time}
use ledger_engine.Errors.{Result, ok, err, version_conflict}
use ledger_engine.Exec.{Exec, continue, prefixed}
use ledger_engine.Ledger.Event.{Payload, StoredEvent, event_type_string}
use ledger_engine.Postgres.Tables.{OutboxRow, Db}
use ledger_engine.Postgres.Server.{Server, call, instead, transaction-keeps}
use ledger_engine.Postgres.EventStore.{insert_event}
use ledger_engine.Postgres.Outbox.{insert_outbox, append_both, append_with_outbox, mark_row}

-- All ids are below the next one of the sequence, and no two rows have the same.
pub record IsNumbered (next : ℕ) (rows : List OutboxRow) : Type 0 where
  pub below : (o : OutboxRow) → In o rows → o.id < next
  pub distinct : (o o' : OutboxRow) → In o rows → In o' rows → o.id ≡ o'.id → o ≡ o'

IsNumbered-mono :
    (next next' : ℕ) (rows : List OutboxRow)
    → next ≤ next'
    → IsNumbered next rows
    → IsNumbered next' rows
IsNumbered-mono next next' rows h n = record {
  below = λ o here. omega (arith, n.below o here);
  distinct = n.distinct;
}

append-IsNumbered :
    (next : ℕ) (rows : List OutboxRow) (r : OutboxRow)
    → r.id ≡ next
    → IsNumbered next rows
    → IsNumbered (next + 1) (rows ++ r ∷ [])
append-IsNumbered next rows r e n = record {
  below = λ o here. elim (In-append o rows (r ∷ []) here) [
    | inl old ↦ omega (arith, n.below o old)
    | inr (inl q) ↦ rw q (omega arith)
    | inr (inr gone) ↦ absurd gone
  ];
  distinct = λ o o' here here' same. elim (In-append o rows (r ∷ []) here) [
    | inl old ↦ elim (In-append o' rows (r ∷ []) here') [
      | inl old' ↦ n.distinct o o' old old' same
      | inr (inl q') ↦ absurd (ground (arith, n.below o old))
      | inr (inr gone) ↦ absurd gone
    ]
    | inr (inl q) ↦ elim (In-append o' rows (r ∷ []) here') [
      | inl old' ↦ absurd (ground (arith, n.below o' old'))
      | inr (inl q') ↦ cc
      | inr (inr gone) ↦ absurd gone
    ]
    | inr (inr gone) ↦ absurd gone
  ];
}

mark_row-id : (now : Time) (ids : List ℕ) (r : OutboxRow) → (mark_row now ids r).id ≡ r.id
unfolding mark_row
mark_row-id now ids r = ground arith

pub mark-IsNumbered :
    (next : ℕ) (now : Time) (ids : List ℕ) (rows : List OutboxRow)
    → IsNumbered next rows
    → IsNumbered next (map (mark_row now ids) rows)
mark-IsNumbered next now ids rows n = record {
  below = λ o here.
      let (r, old, e) = In-map (mark_row now ids) o rows here in
      rw e (rw (mark_row-id now ids r) (n.below r old));
  distinct = λ o o' here here' same.
      let (r, old, e) = In-map (mark_row now ids) o rows here in
      let (r', old', e') = In-map (mark_row now ids) o' rows here' in
      let q : r ≡ r' =
        n.distinct r r' old old'
          (ground (arith, mark_row-id now ids r, mark_row-id now ids r', e, e', same)) in
      cc (e, e', q);
}

-- The outbox is numbered, and its sequence has not gone back since `db`.
record Grown (db s : Db) : Type 0 where
  numbered : IsNumbered s.next_outbox s.tables.outbox
  later : db.next_outbox ≤ s.next_outbox

continue-Grown :
    {A B : Type 0} (db : Db) (r : Result A × Db) (f : A → Exec Db B)
    → Grown db r.1
    → ((s : Db) → Grown db s → (a : A) → Grown db (f a s).1)
    → Grown db (continue r f).1
continue-Grown db (ok a, s) f g h = h s g a
continue-Grown db (err e, s) f g h = g

module _ (pg : Server) where
  insert_event-keeps :
      (aggregate aggregate_type type : String) (version : Int64) (payload : Payload) (at : Time)
      (s : Db)
      → ((instead version_conflict
            (insert_event pg aggregate aggregate_type type version payload at s)).1.tables.outbox
          ≡ s.tables.outbox)
        × ((instead version_conflict
              (insert_event pg aggregate aggregate_type type version payload at s)).1.next_outbox
            ≡ s.next_outbox)
  unfolding insert_event call
  insert_event-keeps aggregate aggregate_type type version payload at s = ground arith

  insert_event-Grown :
      (aggregate aggregate_type type : String) (version : Int64) (payload : Payload) (at : Time)
      (db s : Db)
      → Grown db s
      → Grown db
          (instead version_conflict
            (insert_event pg aggregate aggregate_type type version payload at s)).1
  insert_event-Grown aggregate aggregate_type type version payload at db s g =
      let (same, next) = insert_event-keeps aggregate aggregate_type type version payload at s in
      record { numbered = rw (same, next) g.numbered; later = rw next g.later }

  insert_outbox-Grown :
      (start : Time) (aggregate aggregate_type type : String) (payload : Payload) (db s : Db)
      → Grown db s
      → Grown db
          (prefixed "write outbox"
            (insert_outbox pg start aggregate aggregate_type type payload s)).1
  unfolding insert_outbox call
  insert_outbox-Grown start aggregate aggregate_type type payload db s g =
      elim (Option-cases (pg.fault s.calls)) [
        | inr (x, down) ↦ rw down (record { numbered = g.numbered; later = g.later })
        | inl up ↦ elim (Option-cases (pg.jsonb payload)) [
          | inl bad ↦ rw (up, bad) (record { numbered = g.numbered; later = g.later })
          | inr (json, read) ↦
              rw (up, read)
                (record {
                  numbered = append-IsNumbered s.next_outbox s.tables.outbox _ refl g.numbered;
                  later = omega (arith, g.later);
                })
        ]
      ]

  append_both-Grown :
      (start : Time) (aggregate aggregate_type : String) (expected : Int64) (i : ℕ)
      (es : List StoredEvent) (db s : Db)
      → Grown db s
      → Grown db (append_both pg start aggregate aggregate_type expected i es s).1
  unfolding append_both
  append_both-Grown start aggregate aggregate_type expected i [] db s g = g
  append_both-Grown start aggregate aggregate_type expected i (e ∷ es) db s g =
      continue-Grown db
        (instead version_conflict (
          insert_event pg aggregate aggregate_type (event_type_string e.event_type)
            (add64 (add64 expected i) 1) e.payload e.occurred_at s))
        _
        (insert_event-Grown aggregate aggregate_type (event_type_string e.event_type) _ e.payload
          e.occurred_at db s g)
        (λ s₁ g₁ _.
          continue-Grown db
            (prefixed "write outbox" (
              insert_outbox pg start aggregate aggregate_type (event_type_string e.event_type)
                e.payload s₁))
            _
            (insert_outbox-Grown start aggregate aggregate_type (event_type_string e.event_type)
              e.payload db s₁ g₁)
            (λ s₂ g₂ _.
              append_both-Grown start aggregate aggregate_type expected (i + 1) es db s₂ g₂))

  pub append_with_outbox-IsNumbered :
      (aggregate aggregate_type : String) (expected : Int64) (es : List StoredEvent) (db : Db)
      → IsNumbered db.next_outbox db.tables.outbox
      → IsNumbered
          (append_with_outbox pg aggregate aggregate_type expected es db).1.next_outbox
          (append_with_outbox pg aggregate aggregate_type expected es db).1.tables.outbox
  unfolding append_with_outbox
  append_with_outbox-IsNumbered aggregate aggregate_type expected es db n =
      (transaction-keeps pg (Grown db) _ db
        (λ s k g. record { numbered = g.numbered; later = g.later })
        (λ s g. record {
          numbered = IsNumbered-mono db.next_outbox s.next_outbox db.tables.outbox g.later n;
          later = g.later;
        })
        (λ start s g. append_both-Grown start aggregate aggregate_type expected 0 es db s g)
        (record { numbered = n; later = omega arith })).numbered
