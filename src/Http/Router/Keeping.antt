-- ===== src/Http/Router/Keeping.antt =====
-- A property of the state behind the router that its endpoints keep is one that the router keeps.
use ledger_engine.Prelude.{
  ℕ, ◌≡◌, refl, Bool, true, false, not, ◌||◌, str_eq, inl, inr, Bool-cases, String, Option, none,
  some,
}
use ledger_engine.Environment.{Time}
use ledger_engine.Errors.{Result, ok, err}
use ledger_engine.Redis
use ledger_engine.Redis.{Store, check, lock}
use ledger_engine.Http.{Bytes, Request, Response, Handler}
use ledger_engine.Http.Handlers.Rejecting.{Route}
use ledger_engine.Http.Handlers.Keeping.{Serves}
use ledger_engine.Http.Idempotency.{Site, is_write, finish, locked, checked, idempotency}
use ledger_engine.Http.Metrics.{Measured, measure, metrics_middleware}
use ledger_engine.Http.Router.{
  Endpoint, health_endpoint, metrics_endpoint, api, frontend, RouterDeps, Chi, serve_static,
  dispatch, routes, with_idempotency, recorded_pattern, with_metrics, new_router,
}

module _ {S : Type 0} (P : S → Type 0) where
  metrics_middleware-Serves :
      (now : ℕ → Time) (route_pattern : Request → S → String) (next : Handler S)
      → Serves P next
      → Serves (λ (w : Measured S). P w.inner) (metrics_middleware now route_pattern next)
  unfolding metrics_middleware
  metrics_middleware-Serves now route_pattern next serves r w h =
      of_answer (next r w.inner) (serves r w.inner h)
    where
      of_answer :
          (p : Option Response × S)
          → P p.1
          → P
              (measure now route_pattern next r
                (route_pattern r w.inner)
                w.ticks
                w.metrics
                p).1.inner
      of_answer (none, s) h' = h'
      of_answer (some response, s) h' = h'

module _ {S : Type 0} (P : S → Type 0) where
  module _ (redis : Redis.Server) (error_json : String → Bytes) (next : Handler S)
      (serves : Serves P next) where
    finish-Keeps :
        (key : String) (s : Store) (p : Option Response × S)
        → P p.1
        → P (finish redis error_json next key s p).1.inner
    finish-Keeps key s (none, inner) h = h
    finish-Keeps key s (some response, inner) h = h

    locked-Keeps :
        (r : Request) (l : Result Bool × Store) (s : S)
        → P s
        → P (locked redis error_json next r l s).1.inner
    locked-Keeps r (err _, _) s h = h
    locked-Keeps r (ok false, _) s h = h
    locked-Keeps r (ok true, store) s h = finish-Keeps _ store (next r s) (serves r s h)

    checked-Keeps :
        (r : Request) (c : Result (Option Bytes) × Store) (s : S)
        → P s
        → P (checked redis error_json next r c s).1.inner
    checked-Keeps r (err _, _) s h = h
    checked-Keeps r (ok (some cached), _) s h = h
    checked-Keeps r (ok none, store) s h = locked-Keeps r (lock redis r.idempotency_key store) s h

    idempotency-Serves : Serves (λ (w : Site S). P w.inner) (idempotency redis error_json next)
    unfolding idempotency
    idempotency-Serves r w h = elim (Bool-cases (not (is_write r) || str_eq r.idempotency_key "")) [
      | inl through ↦ rw through (serves r w.inner h)
      | inr guarded ↦ rw guarded (checked-Keeps r (check redis r.idempotency_key w.redis) w.inner h)
    ]

  -- Whatever may answer a request keeps the property.
  pub record Endpoints (chi : Chi S) (deps : RouterDeps S) : Type 0 where
    pub not_found : Serves P chi.not_found
    pub prometheus : Serves P chi.prometheus
    pub handle : (route : Route) → Serves P (deps.handle route)
    pub static_fs : (files : Handler S) → deps.static_fs ≡ some files → Serves P files
    pub health : Serves P deps.health

  module _ (now : ℕ → Time) (error_json : String → Bytes) (chi : Chi S) (deps : RouterDeps S)
      (ends : Endpoints chi deps) where
    serve_static-Serves :
        (files : Option (Handler S))
        → ((f : Handler S) → files ≡ some f → Serves P f)
        → Serves P (serve_static now error_json chi deps files)
    serve_static-Serves none served r s h = ends.not_found r s h
    serve_static-Serves (some f) served r s h = served f refl r s h

    dispatch-Serves : (e : Option Endpoint) → Serves P (dispatch now error_json chi deps e)
    dispatch-Serves none r s h = ends.not_found r s h
    dispatch-Serves (some health_endpoint) r s h = ends.health r s h
    dispatch-Serves (some metrics_endpoint) r s h = ends.prometheus r s h
    dispatch-Serves (some (api route)) r s h = ends.handle route r s h
    dispatch-Serves (some frontend) r s h = serve_static-Serves deps.static_fs ends.static_fs r s h

    routes-Serves : Serves P (routes now error_json chi deps)
    unfolding routes
    routes-Serves r s h = dispatch-Serves (chi.matches r) r s h

    with_idempotency-Serves :
        (store : Option Redis.Server)
        → Serves (λ (w : Site S). P w.inner) (with_idempotency now error_json chi deps store)
    with_idempotency-Serves none r w h = routes-Serves r w.inner h
    with_idempotency-Serves (some redis) r w h =
        idempotency-Serves redis error_json (routes now error_json chi deps) routes-Serves r w h

  with_metrics-Serves :
      (now : ℕ → Time) (error_json : String → Bytes) (chi : Chi S) (deps : RouterDeps S) (b : Bool)
      (next : Handler (Site S))
      → Serves (λ (w : Site S). P w.inner) next
      → Serves
          (λ (w : Measured (Site S)). P w.inner.inner)
          (with_metrics now error_json chi deps b next)
  with_metrics-Serves now error_json chi deps false next serves r w h = serves r w.inner h
  with_metrics-Serves now error_json chi deps true next serves r w h =
      metrics_middleware-Serves (λ (w' : Site S). P w'.inner) now
        (recorded_pattern now error_json chi deps deps.idempotency_store) next serves r w h

  pub new_router-Serves :
      (now : ℕ → Time) (error_json : String → Bytes) (chi : Chi S) (deps : RouterDeps S)
      → Endpoints chi deps
      → Serves (λ (w : Measured (Site S)). P w.inner.inner) (new_router now error_json chi deps)
  unfolding new_router
  new_router-Serves now error_json chi deps ends =
      with_metrics-Serves now error_json chi deps deps.has_metrics _
        (with_idempotency-Serves now error_json chi deps ends deps.idempotency_store)
