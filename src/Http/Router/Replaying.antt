-- ===== src/Http/Router/Replaying.antt =====
-- The router as cmd/api builds it: a request that is sent again.
use ledger_engine.Prelude.{ℕ, ◌+◌, ◌≡◌, ◌<◌, ap, ◌∙◌, true, String, Option, none, some, arith}
use ledger_engine.Environment.{Time}
use ledger_engine.Redis
use ledger_engine.Redis.{default_ttl}
use ledger_engine.Http.{Bytes, Request, Response, Handler}
use ledger_engine.Http.Idempotency.{Site, is_write, idempotency}
use ledger_engine.Http.Idempotency.Replay.{IsNew, replay_of, idempotency-replay}
use ledger_engine.Http.Metrics.{Measured, metrics_middleware}
use ledger_engine.Http.Metrics.Counting.{count, metrics_middleware-answer, metrics_middleware-count}
use ledger_engine.Http.Handlers.Rejecting.{Route}
use ledger_engine.Http.Router.{Chi, RouterDeps, routes, recorded_pattern, new_router}

-- With metrics and an idempotency store, as main has them.
abbrev pub deps_of :
    {S : Type 0}
    → (Route → Handler S)
    → Option (Handler S)
    → Redis.Server
    → Handler S
    → RouterDeps S
deps_of handle static_fs redis health = record {
  handle = handle;
  static_fs = static_fs;
  idempotency_store = some redis;
  has_metrics = true;
  health = health;
}

module _ {S : Type 0} (now : ℕ → Time) (error_json : String → Bytes) (chi : Chi S)
    (handle : Route → Handler S) (static_fs : Option (Handler S)) (health : Handler S)
    (redis : Redis.Server) (up : (n : ℕ) → redis.fault n ≡ none) where
  -- With metrics and an idempotency store, and a Redis server that answers every command: if a
  -- write request with a key that is neither stored nor locked is answered by its route, and a
  -- write request with the same key follows within the time to live of what was stored, the router
  -- answers the first as the route did, the second with its status, 200 in place of none, its body
  -- and the headers of a replay, the state behind the router is that after the first, and the counter of requests has gone up by two.
  pub new_router-replay :
      (r again : Request) (w : Measured (Site S)) (response : Response) (inner : S)
      → IsNew redis up error_json
          (routes now error_json chi (deps_of handle static_fs redis health))
          r
          w.inner
      → routes now error_json chi (deps_of handle static_fs redis health) r w.inner.inner
        ≡ (some response, inner)
      → again.idempotency_key ≡ r.idempotency_key
      → is_write again ≡ true
      → redis.now (w.inner.redis.calls + 5) < redis.now (w.inner.redis.calls + 2) + default_ttl
      → redis.now (w.inner.redis.calls + 6) < redis.now (w.inner.redis.calls + 3) + default_ttl
      → let first = new_router now error_json chi (deps_of handle static_fs redis health) r w in
        let second =
          new_router now error_json chi (deps_of handle static_fs redis health) again first.1 in
        (first.0 ≡ some response)
        × (second.0 ≡ some (replay_of response))
        × (second.1.inner.inner ≡ inner)
        × (count second.1.metrics.request_count.recorded
            ≡ count w.metrics.request_count.recorded + 2)
  unfolding new_router
  new_router-replay r again w response inner n e same write soon soon' =
      let deps = deps_of handle static_fs redis health in
      let pattern = recorded_pattern now error_json chi deps (some redis) in
      let next =
        idempotency redis error_json
          (routes now error_json chi (deps_of handle static_fs redis health)) in
      let replay =
        idempotency-replay redis up error_json
          (routes now error_json chi (deps_of handle static_fs redis health)) r again w.inner
          response inner n e same write soon soon' in
      let first = metrics_middleware now pattern next r w in
      let at_first = metrics_middleware-answer now pattern next r w in
      let at_second = metrics_middleware-answer now pattern next again first.1 in
      let behind = ap (λ s. next again s) at_first.1 in
      let again_answered = ap (λ p. p.0) behind ∙ replay.1 in
      let counted_first = metrics_middleware-count now pattern next r w response replay.0 in
      let counted_second =
        metrics_middleware-count now pattern next again first.1 (replay_of response)
          again_answered in
      (
        at_first.0 ∙ replay.0,
        at_second.0 ∙ again_answered,
        ap (λ s. s.inner) at_second.1 ∙ ap (λ p. p.1.inner) behind ∙ replay.3,
        omega (arith, counted_first, counted_second),
      )
