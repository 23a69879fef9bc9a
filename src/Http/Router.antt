-- ===== src/Http/Router.antt =====
-- internal/infra/http/router.go: the routes, and the order of the middlewares. Which route a request
-- takes is chi's, and so are the middlewares that recover from a panic, log, and answer for CORS.
pub mod Replaying
pub mod Keeping
use ledger_engine.Prelude.{ℕ, String, Option, none, some, Bool, true, false, if◌then◌else◌}
use ledger_engine.Environment.{Time}
use ledger_engine.Redis
use ledger_engine.Http.{Bytes, Request, Response, Handler}
use ledger_engine.Http.Handlers.Rejecting.{Route}
use ledger_engine.Http.Idempotency.{Site, is_handed_on, idempotency}
use ledger_engine.Http.Metrics.{Measured, metrics_middleware}

pub data Endpoint : Type 0 where
  health_endpoint metrics_endpoint : Endpoint
  api : Route → Endpoint
  frontend : Endpoint

-- `handle` is the method of Handler that a route of the API names. Two may be nil: the file server of
-- the frontend, and the idempotency store.
pub record RouterDeps (S : Type 0) : Type 0 where
  pub handle : Route → Handler S
  pub static_fs : Option (Handler S)
  pub idempotency_store : Option Redis.Server
  pub has_metrics : Bool
  pub health : Handler S

-- What the router is given of chi and promhttp: the endpoint of a request, the pattern of its route,
-- the answer where there is none, and the page of the metrics.
pub record Chi (S : Type 0) : Type 0 where
  pub matches : Request → Option Endpoint
  pub route_pattern : Request → String
  pub not_found : Handler S
  pub prometheus : Handler S

module _ {S : Type 0} (now : ℕ → Time) (error_json : String → Bytes) (chi : Chi S)
    (deps : RouterDeps S) where
  -- if deps.StaticFS != nil { r.Handle("/*", fileServer) }
  abbrev pub serve_static : Option (Handler S) → Handler S
  serve_static none = chi.not_found
  serve_static (some files) = files

  abbrev pub dispatch : Option Endpoint → Handler S
  dispatch none = chi.not_found
  dispatch (some health_endpoint) = deps.health
  dispatch (some metrics_endpoint) = chi.prometheus
  dispatch (some (api route)) = deps.handle route
  dispatch (some frontend) = serve_static deps.static_fs

  unfoldable pub routes : Handler S
  routes r s = dispatch (chi.matches r) r s

  abbrev bare : Handler (Site S)
  bare r w = let (response, inner) = routes r w.inner in (response, record w { inner = inner })

  -- if deps.IdempotencyStore != nil { r.Use(IdempotencyMiddleware(…)) }
  abbrev pub with_idempotency : Option Redis.Server → Handler (Site S)
  with_idempotency none = bare
  with_idempotency (some redis) = idempotency redis error_json routes

  -- RoutePattern after a request: chi sets it where it routes, which a request that the idempotency
  -- middleware answers does not reach.
  abbrev pub recorded_pattern : Option Redis.Server → Request → Site S → String
  recorded_pattern none r w = chi.route_pattern r
  recorded_pattern (some redis) r w =
      if is_handed_on redis error_json routes r w then chi.route_pattern r else ""

  abbrev unmeasured : Handler (Site S) → Handler (Measured (Site S))
  unmeasured next r w =
      let (response, inner) = next r w.inner in (response, record w { inner = inner })

  -- if deps.Metrics != nil { r.Use(MetricsMiddleware(…)) }
  abbrev pub with_metrics : Bool → Handler (Site S) → Handler (Measured (Site S))
  with_metrics false next = unmeasured next
  with_metrics true next = metrics_middleware now (recorded_pattern deps.idempotency_store) next

  unfoldable pub new_router : Handler (Measured (Site S))
  new_router = with_metrics deps.has_metrics (with_idempotency deps.idempotency_store)
