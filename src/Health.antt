-- ===== src/Health.antt =====
-- internal/infra/observability/health.go: what /health answers. The answers of the servers to Ping,
-- and the times that were measured, are parameters; the backlog is counted in the table outbox.
pub mod Status
use ledger_engine.Prelude.{
  ⊤, ℕ, Bool, true, false, not, ◌&&◌, ltb, if◌then◌else◌, str_eq, String, ◌<>◌, decimal, Option,
  none, some, List, length,
}
use ledger_engine.Prelude.Rows.{select}
use ledger_engine.Errors.{Error, Result, ok, err, message}
use ledger_engine.Exec.{Exec, continue}
use ledger_engine.Postgres.Tables.{Tables, Db}
use ledger_engine.Postgres.Server.{Server, call}
use ledger_engine.Postgres.Outbox.{is_pending}

-- An omitted field is empty.
pub record Check : Type 0 where
  pub status : String
  pub latency : String
  pub error : String

-- The map `checks`, which has these three keys.
pub record Checks : Type 0 where
  pub postgres : Check
  pub redis : Check
  pub outbox : Check

pub record HealthResponse : Type 0 where
  pub http_status : ℕ
  pub status : String
  pub checks : Checks
  pub uptime : String

-- What a Ping returned, and how long it took.
pub record Ping : Type 0 where
  pub error : Option Error
  pub latency : String

-- checkPostgres and checkRedis
abbrev pinged : Option Error → String → Check
pinged (some e) latency = record { status = "error"; latency = latency; error = message e }
pinged none latency = record { status = "ok"; latency = latency; error = "" }

unfoldable pub check_ping : Ping → Check
check_ping p = pinged p.error p.latency

unfoldable pub backlog_status : ℕ → String
backlog_status count =
    if ltb 1000 count then "critical" else if ltb 100 count then "warning" else "ok"

-- SELECT COUNT(*) FROM outbox WHERE published = FALSE
abbrev pub count_pending : Tables → ℕ
count_pending t = length (select is_pending t.outbox)

abbrev pub counted : Result ℕ × Db → Check × Db
counted (err e, db) = (record { status = "error"; latency = ""; error = message e }, db)
counted (ok count, db) = (
  record { status = backlog_status count; latency = decimal count <> " pending"; error = "" },
  db,
)

unfoldable pub check_outbox_backlog : Server → Db → Check × Db
check_outbox_backlog pg db =
    counted (continue (call pg db) (λ _ s. (ok (count_pending s.tables), s)))

abbrev is_ok : Check → Bool
is_ok c = str_eq c.status "ok"

abbrev report : Bool → Checks → String → HealthResponse
report healthy checks uptime =
    if healthy
    then record { http_status = 200; status = "healthy"; checks = checks; uptime = uptime }
    else record { http_status = 503; status = "degraded"; checks = checks; uptime = uptime }

unfoldable pub health : Server → Ping → Ping → String → Db → HealthResponse × Db
health pg postgres redis uptime db =
    let (outbox, db') = check_outbox_backlog pg db in
    let checks : Checks = record {
      postgres = check_ping postgres;
      redis = check_ping redis;
      outbox = outbox;
    } in
    (report (is_ok checks.postgres && is_ok checks.redis) checks uptime, db')
