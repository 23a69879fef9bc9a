-- ===== src/Http/Idempotency/Concurrent/Calls.antt =====
-- How many calls on Redis a step makes.
use ledger_engine.Prelude.{
  ⊤, ℕ, ◌+◌, ◌≡◌, ◌≤◌, refl, Bool, true, false, String, Option, none, some, arith,
}
use ledger_engine.Errors.{Result, ok, err}
use ledger_engine.Redis
use ledger_engine.Redis.{
  Bytes, Item, Store, find, remove, put, command, get, set, del, set_nx, check, lock, store,
  get_status, unlock, idempotency_key, idempotency_lock, idempotency_status, default_ttl, lock_ttl,
}
use ledger_engine.Http.{Request, Response}
use ledger_engine.Http.Idempotency.Concurrent.{
  Serving, key, after_check, after_lock, after_serve, after_release,
}

module _ {S : Type 0} (redis : Redis.Server) (next : Request → S → Option Response × S)
    (requests : ℕ → Request) where
  abbrev name : ℕ → String
  name i = key redis next requests i

  pub after_check-calls :
      (i : ℕ) (w : Serving S) (r : Result (Option Bytes) × Store)
      → r.1.calls ≡ w.redis.calls + 1
      → w.redis.calls + 1 ≤ (after_check redis next requests i r w).redis.calls
  after_check-calls i w (err _, s) e = omega (arith, e)
  after_check-calls i w (ok none, s) e = omega (arith, e)
  after_check-calls i w (ok (some cached), s) e = omega (arith, e)

  pub after_lock-calls :
      (i : ℕ) (w : Serving S) (r : Result Bool × Store)
      → r.1.calls ≡ w.redis.calls + 1
      → w.redis.calls + 1 ≤ (after_lock redis next requests i r w).redis.calls
  after_lock-calls i w (err _, s) e = omega (arith, e)
  after_lock-calls i w (ok false, s) e = omega (arith, e)
  after_lock-calls i w (ok true, s) e = omega (arith, e)

  pub after_serve-calls :
      (i : ℕ) (w : Serving S) (p : Option Response × S)
      → (after_serve redis next requests i p w).redis.calls ≡ w.redis.calls
  after_serve-calls i w (none, inner) = refl
  after_serve-calls i w (some response, inner) = refl

  pub after_release-calls :
      (i : ℕ) (r₁ r₂ : Result ⊤) (p : Result ⊤ × Store) (w : Serving S)
      → (after_release redis next requests i r₁ r₂ p w).redis.calls ≡ p.1.calls
  after_release-calls i (ok _) (ok _) (ok _, s) w = refl
  after_release-calls i (ok _) (ok _) (err e, s) w = refl
  after_release-calls i (ok _) (err e) (r, s) w = refl
  after_release-calls i (err e) r₂ (r, s) w = refl
