-- ===== src/Http/Metrics/Counting.antt =====
-- What the middleware leaves of an answer, and what it counts.
use ledger_engine.Prelude.{ℕ, ◌+◌, ◌≡◌, refl, String, Option, none, some, List, [], ◌∷◌, arith}
use ledger_engine.Environment.{Time}
use ledger_engine.Metrics.{Measurement, record_request}
use ledger_engine.Http.{Request, Response, Handler}
use ledger_engine.Http.Metrics.{Measured, measure, metrics_middleware}

-- What a counter has counted.
abbrev pub count : List Measurement → ℕ
count [] = 0
count (m ∷ ms) = m.value + count ms

module _ {S : Type 0} (now : ℕ → Time) (route_pattern : Request → S → String)
    (next : Handler S) where
  pub metrics_middleware-answer :
      (r : Request) (w : Measured S)
      → ((metrics_middleware now route_pattern next r w).0 ≡ (next r w.inner).0)
        × ((metrics_middleware now route_pattern next r w).1.inner ≡ (next r w.inner).1)
  unfolding metrics_middleware
  metrics_middleware-answer r w = of_answer (next r w.inner)
    where
      of_answer :
          (p : Option Response × S)
          → ((measure now route_pattern next r (route_pattern r w.inner) w.ticks w.metrics p).0
              ≡ p.0)
            × ((measure now route_pattern next r
                  (route_pattern r w.inner)
                  w.ticks
                  w.metrics
                  p).1.inner
                ≡ p.1)
      of_answer (none, s) = (refl, refl)
      of_answer (some response, s) = (refl, refl)

  pub metrics_middleware-count :
      (r : Request) (w : Measured S) (response : Response)
      → (next r w.inner).0 ≡ some response
      → count (metrics_middleware now route_pattern next r w).1.metrics.request_count.recorded
        ≡ count w.metrics.request_count.recorded + 1
  unfolding metrics_middleware record_request
  metrics_middleware-count r w response e = of_answer (next r w.inner) e
    where
      of_answer :
          (p : Option Response × S)
          → p.0 ≡ some response
          → count
              (measure now route_pattern next r
                (route_pattern r w.inner)
                w.ticks
                w.metrics
                p).1.metrics.request_count.recorded
            ≡ count w.metrics.request_count.recorded + 1
      of_answer (none, s) e = absurd (cc e)
      of_answer (some _, s) e = omega arith
