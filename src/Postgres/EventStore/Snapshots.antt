-- ===== src/Postgres/EventStore/Snapshots.antt =====
-- SnapshotStore of internal/infra/postgres/event_store.go.
use ledger_engine.Prelude.{
  ◌≡◌, ◌≢◌, refl, ap, inl, inr, Bool-cases, str_eq, eq_iff, eq_refl, String, none, some, List, [],
  ◌∷◌, ◌+◌, arith,
}
use ledger_engine.Errors.{ok}
use ledger_engine.Ledger.Event.{Payload, Snapshot}
use ledger_engine.Postgres.Tables.{SnapshotRow, Db}
use ledger_engine.Postgres.Server.{Server, call}
use ledger_engine.Postgres.EventStore.{upsert_snapshot, find_snapshot, save_snapshot, load_snapshot}

find_snapshot-upsert_snapshot :
    (row : SnapshotRow) (rows : List SnapshotRow)
    → find_snapshot row.aggregate_id (upsert_snapshot row rows)
      ≡ record { aggregate_id = row.aggregate_id; version = row.version; payload = row.payload }
unfolding find_snapshot upsert_snapshot
find_snapshot-upsert_snapshot row [] = rw (eq_refl row.aggregate_id) refl
find_snapshot-upsert_snapshot row (r ∷ rows) =
    elim (Bool-cases (str_eq r.aggregate_id row.aggregate_id)) [
      | inl same ↦ rw (same, eq_refl row.aggregate_id) refl
      | inr other ↦ rw (other, other) (find_snapshot-upsert_snapshot row rows)
    ]

find_snapshot-upsert_snapshot_other :
    (aggregate : String) (row : SnapshotRow) (rows : List SnapshotRow)
    → row.aggregate_id ≢ aggregate
    → find_snapshot aggregate (upsert_snapshot row rows) ≡ find_snapshot aggregate rows
unfolding find_snapshot upsert_snapshot
find_snapshot-upsert_snapshot_other aggregate row [] h =
    ground (arith, h, eq_iff row.aggregate_id aggregate)
find_snapshot-upsert_snapshot_other aggregate row (r ∷ rows) h = ground (
  arith,
  h,
  eq_iff row.aggregate_id aggregate,
  eq_iff r.aggregate_id row.aggregate_id,
  find_snapshot-upsert_snapshot_other aggregate row rows h,
)

module _ (pg : Server) where
  -- If the server answers the two calls and the payload is JSON, Load after Save returns the
  -- snapshot with the normal form of its payload, and under every other aggregate the table holds
  -- what it held.
  pub load_snapshot-save_snapshot :
      (snapshot : Snapshot) (payload : Payload) (db : Db)
      → pg.fault db.calls ≡ none
      → pg.fault (db.calls + 1) ≡ none
      → pg.jsonb snapshot.payload ≡ some payload
      → ((load_snapshot pg snapshot.aggregate_id (save_snapshot pg snapshot db).1).0
          ≡ ok (record snapshot { payload = payload }))
        × ((aggregate : String)
            → snapshot.aggregate_id ≢ aggregate
            → find_snapshot aggregate (save_snapshot pg snapshot db).1.tables.snapshots
              ≡ find_snapshot aggregate db.tables.snapshots)
  unfolding save_snapshot load_snapshot call
  load_snapshot-save_snapshot snapshot payload db up up' json =
      let row : SnapshotRow = record {
        aggregate_id = snapshot.aggregate_id;
        version = snapshot.version;
        payload = payload;
        created_at = pg.now db.calls;
      } in
      (
        rw (up, json, up') (ap ok (find_snapshot-upsert_snapshot row db.tables.snapshots)),
        λ aggregate other.
            rw (up, json)
              (find_snapshot-upsert_snapshot_other aggregate row db.tables.snapshots other),
      )
