-- ===== src/Http/Idempotency/Exclusion.antt =====
-- While the lock of a request lives, no other request with its key is processed.
use ledger_engine.Prelude.{
  ◌+◌, ◌≡◌, refl, true, false, str_eq, inl, inr, Option-cases, String, Option, some,
}
use ledger_engine.Redis
use ledger_engine.Redis.{
  Bytes, Store, find, command, get, set_nx, check, lock, get_status, idempotency_key,
  idempotency_lock,
}
use ledger_engine.Http.{Request, Response}
use ledger_engine.Http.Idempotency.{Site, is_write, idempotency}

module _ {S : Type 0} (redis : Redis.Server) (error_json : String → Bytes)
    (next : Request → S → Option Response × S) where
  -- Whatever the Redis server answers: a POST or PUT request with a key, whose lock is there and
  -- not expired when the lock is tried for, changes neither the state behind the middleware nor the
  -- items of the store.
  pub idempotency-locked :
      (r : Request) (w : Site S) (value : Bytes)
      → is_write r ≡ true
      → str_eq r.idempotency_key "" ≡ false
      → find (redis.now (w.redis.calls + 1)) (idempotency_lock r.idempotency_key) w.redis.items
        ≡ some value
      → ((idempotency redis error_json next r w).1.inner ≡ w.inner)
        × ((idempotency redis error_json next r w).1.redis.items ≡ w.redis.items)
  unfolding idempotency check lock get set_nx get_status command
  idempotency-locked r w value write keyed held = elim (Option-cases (redis.fault w.redis.calls)) [
    | inr (e, down) ↦ rw (write, keyed, down) (refl, refl)
    | inl up ↦
        elim (Option-cases
          (find (redis.now w.redis.calls) (idempotency_key r.idempotency_key) w.redis.items)) [
            | inr (cached, there) ↦
                rw (write, keyed, up, there)
                  (elim (Option-cases (redis.fault (w.redis.calls + 1))) [
                    | inr (e, down) ↦ rw down (refl, refl)
                    | inl up' ↦ rw up' (refl, refl)
                  ])
            | inl fresh ↦
                rw (write, keyed, up, fresh)
                  (elim (Option-cases (redis.fault (w.redis.calls + 1))) [
                    | inr (e, down) ↦ rw down (refl, refl)
                    | inl up' ↦ rw (up', held) (refl, refl)
                  ])
          ]
  ]
