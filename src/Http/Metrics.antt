-- ===== src/Http/Metrics.antt =====
-- internal/infra/http/metrics_middleware.go: each request that is answered is measured.
pub mod Counting
use ledger_engine.Prelude.{ℕ, ◌+◌, ◌-◌, ◌==◌, if◌then◌else◌, str_eq, String, Option, none, some}
use ledger_engine.Environment.{Time}
use ledger_engine.Metrics.{Metrics, record_request}
use ledger_engine.Http.{Request, Response, Handler}

-- The metrics, how often the time was asked for, and the state behind the middleware.
pub record Measured (S : Type 0) : Type 0 where
  pub metrics : Metrics
  pub ticks : ℕ
  pub inner : S

-- if routePattern == "" { routePattern = r.URL.Path }
abbrev pub pattern_or_path : String → Request → String
pattern_or_path pattern r = if str_eq pattern "" then r.path else pattern

-- statusCode: 200, or that of WriteHeader
abbrev pub recorded_status : Response → ℕ
recorded_status response = if response.status == 0 then 200 else response.status

-- `route_pattern` is what chi's RoutePattern returns once a request that found the state as it is was
-- answered, and `now n` what the n-th call of time.Now does.
module _ {S : Type 0} (now : ℕ → Time) (route_pattern : Request → S → String)
    (next : Handler S) where
  -- Behind a handler that panics nothing is recorded.
  abbrev pub measure :
      Request → String → ℕ → Metrics → Option Response × S → Option Response × Measured S
  measure r pattern start metrics (none, s) =
      (none, record { metrics = metrics; ticks = start + 1; inner = s })
  measure r pattern start metrics (some response, s) = (
    some response,
    record {
      metrics =
          record_request r.method (pattern_or_path pattern r) (recorded_status response)
            (now (start + 1) - now start) metrics;
      ticks = start + 2;
      inner = s;
    },
  )

  unfoldable pub metrics_middleware : Handler (Measured S)
  metrics_middleware r w = measure r (route_pattern r w.inner) w.ticks w.metrics (next r w.inner)
