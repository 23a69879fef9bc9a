-- ===== src/Postgres/EventStore/Loading.antt =====
-- What Append writes, LoadEventsFrom reads.
use ledger_engine.Prelude.{
  ℕ, ◌+◌, ◌^◌, ◌≡◌, ◌≤◌, ◌<◌, refl, ap, ◌∙◌, inl, inr, Bool, Bool-cases, true, false, ◌&&◌, leb,
  ltb, str_eq, eq_iff, eq_refl, String, none, some, List, [], ◌∷◌, ◌++◌, map, length, arith,
}
use ledger_engine.Prelude.Int64.{Int64, add64, rank64}
use ledger_engine.Prelude.Rows.{
  In, select, order_by, select-append, select_none, select_all, IsOrdered, order_by-IsOrdered,
}
use ledger_engine.Errors.{ok}
use ledger_engine.Exec.Rules.{Outcome-ok}
use ledger_engine.Ledger.Event.{StoredEvent, event_type_string, event_type_of}
use ledger_engine.Postgres.Tables.{EventRow, Tables, Db}
use ledger_engine.Postgres.Server.{Server, call}
use ledger_engine.Postgres.EventStore.{scan_event, events_after, append, load_events_from}
use ledger_engine.Postgres.EventStore.Appending.{Written, Extended, append-Outcome}

-- aggregate_id = $1 AND version > $2
abbrev is_after : String → Int64 → EventRow → Bool
is_after aggregate version r =
    str_eq r.aggregate_id aggregate && ltb (rank64 version) (rank64 r.version)

abbrev by_version : EventRow → EventRow → Bool
by_version r r' = leb (rank64 r.version) (rank64 r'.version)

-- No event of the aggregate has a version above the one given.
abbrev pub IsLatest : String → Int64 → List EventRow → Type 0
IsLatest aggregate version rows =
    (r : EventRow) → In r rows → r.aggregate_id ≡ aggregate → rank64 r.version ≤ rank64 version

rank64-add64 :
    (version : Int64) (i : ℕ)
    → rank64 version + i + 1 < 2 ^ 64
    → rank64 (add64 (add64 version i) 1) ≡ rank64 version + i + 1
unfolding add64
rank64-add64 version i h = omega (arith, h)

IsLatest-is_after :
    (aggregate : String) (version : Int64) (rows : List EventRow)
    → IsLatest aggregate version rows
    → (r : EventRow) → In r rows
    → is_after aggregate version r ≡ false
IsLatest-is_after aggregate version rows latest r inside =
    elim (Bool-cases (str_eq r.aggregate_id aggregate)) [
      | inl same ↦
          rw same (ground (arith, latest r inside ((eq_iff r.aggregate_id aggregate).0 same)))
      | inr other ↦ rw other refl
    ]

event_type_string-event_type_of : (s : String) → event_type_string (event_type_of s) ≡ s
unfolding event_type_string event_type_of
event_type_string-event_type_of s = ground (
  arith,
  eq_iff s "account.opened",
  eq_iff s "account.suspended",
  eq_iff s "account.reactivated",
  eq_iff s "account.closed",
  eq_iff s "transaction.recorded",
)

module _ (pg : Server) (aggregate aggregate_type : String) (version : Int64) where
  Written-is_after :
      (i : ℕ) (es : List StoredEvent) (rows : List EventRow)
      → rank64 version + i + length es < 2 ^ 64
      → Written pg aggregate aggregate_type version i es rows
      → (r : EventRow) → In r rows
      → is_after aggregate version r ≡ true
  Written-is_after i [] [] small w r inside = absurd inside
  Written-is_after i [] (x ∷ rows) small w r inside = absurd w
  Written-is_after i (e ∷ es) [] small w r inside = absurd w
  Written-is_after i (e ∷ es) (x ∷ rows) small w r (inl q) =
      rw (q, w.0.aggregate_id, eq_refl aggregate, w.0.version)
        (ground (arith, rank64-add64 version i (omega (arith, small))))
  Written-is_after i (e ∷ es) (x ∷ rows) small w r (inr there) =
      Written-is_after (i + 1) es rows (omega (arith, small)) w.1 r there

  Written-IsOrdered :
      (i : ℕ) (es : List StoredEvent) (rows : List EventRow)
      → rank64 version + i + length es < 2 ^ 64
      → Written pg aggregate aggregate_type version i es rows
      → IsOrdered by_version rows
  Written-IsOrdered i es [] small w = tt
  Written-IsOrdered i es (x ∷ []) small w = tt
  Written-IsOrdered i [] (x ∷ y ∷ rows) small w = absurd w
  Written-IsOrdered i (e ∷ []) (x ∷ y ∷ rows) small w = absurd w.1
  Written-IsOrdered i (e ∷ e' ∷ es) (x ∷ y ∷ rows) small w = (
    rw (w.0.version, w.1.0.version)
        (ground (
          arith,
          rank64-add64 version i (omega (arith, small)),
          rank64-add64 version (i + 1) (omega (arith, small)),
        )),
    Written-IsOrdered (i + 1) (e' ∷ es) (y ∷ rows) (omega (arith, small)) w.1,
  )

  events_after-append :
      (es : List StoredEvent) (old rows : List EventRow)
      → IsLatest aggregate version old
      → rank64 version + length es < 2 ^ 64
      → Written pg aggregate aggregate_type version 0 es rows
      → events_after aggregate version (old ++ rows) ≡ rows
  unfolding events_after
  events_after-append es old rows latest small w =
      ap (order_by by_version) (
        select-append (is_after aggregate version) old rows
        ∙ ap (λ l. l ++ select (is_after aggregate version) rows)
            (select_none (is_after aggregate version) old
              (IsLatest-is_after aggregate version old latest))
        ∙ select_all (is_after aggregate version) rows
            (Written-is_after 0 es rows (omega (arith, small)) w))
      ∙ order_by-IsOrdered by_version rows (Written-IsOrdered 0 es rows (omega (arith, small)) w)

  -- What is read of the `i`-th event of the call. The id is the row's, which Append does not know.
  pub record IsRead (i : ℕ) (e x : StoredEvent) : Type 0 where
    pub aggregate_id : x.aggregate_id ≡ aggregate
    pub type_of_aggregate : x.aggregate_type ≡ aggregate_type
    pub event_type : event_type_string x.event_type ≡ event_type_string e.event_type
    pub at_version : rank64 x.version ≡ rank64 version + i + 1
    pub payload : pg.jsonb e.payload ≡ some x.payload
    pub occurred_at : x.occurred_at ≡ pg.timestamptz e.occurred_at

  -- One event read for each that was appended, in order.
  abbrev pub AllRead : ℕ → List StoredEvent → List StoredEvent → Type 0
  AllRead i [] [] = Unit
  AllRead i [] (x ∷ xs) = ⊥
  AllRead i (e ∷ es) [] = ⊥
  AllRead i (e ∷ es) (x ∷ xs) = IsRead i e x × AllRead (i + 1) es xs

  scan_event-AllRead :
      (i : ℕ) (es : List StoredEvent) (rows : List EventRow)
      → rank64 version + i + length es < 2 ^ 64
      → Written pg aggregate aggregate_type version i es rows
      → AllRead i es (map scan_event rows)
  unfolding scan_event
  scan_event-AllRead i [] [] small w = tt
  scan_event-AllRead i [] (r ∷ rows) small w = absurd w
  scan_event-AllRead i (e ∷ es) [] small w = absurd w
  scan_event-AllRead i (e ∷ es) (r ∷ rows) small w = (
    record {
      aggregate_id = w.0.aggregate_id;
      type_of_aggregate = w.0.type_of_aggregate;
      event_type = event_type_string-event_type_of r.event_type ∙ w.0.event_type;
      at_version = ap rank64 w.0.version ∙ rank64-add64 version i (omega (arith, small));
      payload = w.0.payload;
      occurred_at = w.0.occurred_at;
    },
    scan_event-AllRead (i + 1) es rows (omega (arith, small)) w.1,
  )

  -- If Append of events to an aggregate at an expected version succeeds, no event of the aggregate
  -- had a version above that one, the new versions do not pass the largest int64, and the server
  -- answers the next two calls, then LoadEventsFrom of that version returns one event for each of
  -- these, in order, and nothing else: of the aggregate and its type, with the type of the event,
  -- the versions counting up from the expected one, the payload as a column of type jsonb keeps it,
  -- and the time as one of type timestamptz does.
  pub load_events_from-append :
      (es : List StoredEvent) (db s : Db)
      → append pg aggregate aggregate_type version es db ≡ (ok tt, s)
      → IsLatest aggregate version db.tables.events
      → rank64 version + length es < 2 ^ 64
      → pg.fault s.calls ≡ none
      → pg.fault (s.calls + 1) ≡ none
      → (read : List StoredEvent) × ((load_events_from pg aggregate version s).0 ≡ ok read)
        × AllRead 0 es read
  unfolding load_events_from call
  load_events_from-append es db s e latest small up up' =
      let d : Extended pg aggregate aggregate_type version 0 es db.tables s.tables =
        Outcome-ok (λ _ s'. Extended pg aggregate aggregate_type version 0 es db.tables s'.tables)
          (λ s'. s'.tables ≡ db.tables) (append pg aggregate aggregate_type version es db) e
          (append-Outcome pg aggregate aggregate_type version es db) in
      (
        map scan_event d.rows,
        rw (up, up')
            (ap (λ (t : Tables). ok (map scan_event (events_after aggregate version t.events)))
                d.tables
              ∙ ap (λ l. ok (map scan_event l))
                  (events_after-append es db.tables.events d.rows latest small d.written)),
        scan_event-AllRead 0 es d.rows (omega (arith, small)) d.written,
      )
