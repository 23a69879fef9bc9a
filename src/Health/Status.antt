-- ===== src/Health/Status.antt =====
-- What the status of /health says.
use ledger_engine.Prelude.{
  ℕ, ◌≡◌, ◌↔◌, ◌<◌, ◌≤◌, refl, Bool, true, false, ◌&&◌, inl, inr, Option-cases, eq_iff, String,
  none, List, [], ◌∷◌, ◌+◌, length, if◌then◌else◌, arith,
}
use ledger_engine.Prelude.Rows.{select}
use ledger_engine.Postgres.Tables.{OutboxRow, Db}
use ledger_engine.Postgres.Outbox.{is_pending}
use ledger_engine.Postgres.Server.{Server, call}
use ledger_engine.Health.{
  is_ok, report, Checks, Ping, check_ping, backlog_status, count_pending, check_outbox_backlog,
  health,
}

is_ok-check_ping : (p : Ping) → is_ok (check_ping p) ≡ true ↔ p.error ≡ none
unfolding check_ping
is_ok-check_ping p = elim (Option-cases p.error) [
  | inl up ↦ rw up ((λ _. refl), (λ _. refl))
  | inr (e, down) ↦ rw down ((λ q. absurd (cc q)), (λ q. absurd (cc q)))
]

and_iff : (a b : Bool) → (a && b) ≡ true ↔ (a ≡ true) × (b ≡ true)
and_iff a b = ground arith

report-healthy :
    (healthy : Bool) (checks : Checks) (uptime : String)
    → (report healthy checks uptime).http_status ≡ 200 ↔ healthy ≡ true
report-healthy true checks uptime = ((λ _. refl), (λ _. refl))
report-healthy false checks uptime = ((λ e. absurd (omega (arith, e))), (λ e. absurd (cc e)))

report-checks :
    (healthy : Bool) (checks : Checks) (uptime : String)
    → (report healthy checks uptime).checks ≡ checks
report-checks true checks uptime = refl
report-checks false checks uptime = refl

backlog_status_iff :
    (n : ℕ) → (backlog_status n ≡ "critical" ↔ 1000 < n) × (backlog_status n ≡ "ok" ↔ n ≤ 100)
unfolding backlog_status
backlog_status_iff n =
    ground (arith, eq_iff "critical" "warning", eq_iff "critical" "ok", eq_iff "warning" "ok")

check_outbox_backlog-tables :
    (pg : Server) (db : Db) → (check_outbox_backlog pg db).1.tables ≡ db.tables
unfolding check_outbox_backlog call
check_outbox_backlog-tables pg db = elim (Option-cases (pg.fault db.calls)) [
  | inl up ↦ rw up refl
  | inr (e, down) ↦ rw down refl
]

check_outbox_backlog-status :
    (pg : Server) (db : Db)
    → pg.fault db.calls ≡ none
    → (check_outbox_backlog pg db).0.status ≡ backlog_status (count_pending db.tables)
unfolding check_outbox_backlog call
check_outbox_backlog-status pg db up = rw up refl

-- The entries that wait, counted one by one.
abbrev pub waiting : List OutboxRow → ℕ
waiting [] = 0
waiting (r ∷ rs) = (if r.published then 0 else 1) + waiting rs

count_pending-waiting : (rows : List OutboxRow) → length (select is_pending rows) ≡ waiting rows
unfolding select
count_pending-waiting [] = refl
count_pending-waiting (r ∷ rows) = ground (arith, count_pending-waiting rows)

-- The health check answers 200 exactly if both servers answered their ping, and leaves the tables
-- as they are; if the server answers the query, it calls the outbox critical exactly if more than
-- 1000 entries of the outbox are not published, and ok exactly if at most 100 are not.
pub health-status :
    (pg : Server) (postgres redis : Ping) (uptime : String) (db : Db)
    → let answer = health pg postgres redis uptime db in
      (answer.0.http_status ≡ 200 ↔ (postgres.error ≡ none) × (redis.error ≡ none))
      × (answer.1.tables ≡ db.tables)
      × (pg.fault db.calls ≡ none
          → (answer.0.checks.outbox.status ≡ "critical" ↔ 1000 < waiting db.tables.outbox)
            × (answer.0.checks.outbox.status ≡ "ok" ↔ waiting db.tables.outbox ≤ 100))
unfolding health
health-status pg postgres redis uptime db =
    let healthy = is_ok (check_ping postgres) && is_ok (check_ping redis) in
    let checks : Checks = record {
      postgres = check_ping postgres;
      redis = check_ping redis;
      outbox = (check_outbox_backlog pg db).0;
    } in
    let r = report-healthy healthy checks uptime in
    let b = and_iff (is_ok (check_ping postgres)) (is_ok (check_ping redis)) in
    let p = is_ok-check_ping postgres in
    let q = is_ok-check_ping redis in
    (
      ((λ e. let (x, y) = b.0 (r.0 e) in (p.0 x, q.0 y)), (λ (x, y). r.1 (b.1 (p.1 x, q.1 y)))),
      check_outbox_backlog-tables pg db,
      λ up.
          rw
            (
              report-checks healthy checks uptime,
              check_outbox_backlog-status pg db up,
              count_pending-waiting db.tables.outbox,
            )
            (backlog_status_iff (waiting db.tables.outbox)),
    )
