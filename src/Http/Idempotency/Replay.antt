-- ===== src/Http/Idempotency/Replay.antt =====
-- A request that is sent again is answered as the first time, and not processed again.
use ledger_engine.Prelude.{
  ℕ, ◌+◌, ◌≡◌, ◌<◌, ◌==◌, refl, ap, ◌∙◌, true, false, if◌then◌else◌, str_eq, String, Option, none,
  some, [], ◌∷◌, arith,
}
use ledger_engine.Errors.{ok}
use ledger_engine.Redis
use ledger_engine.Redis.{
  Store, Item, Bytes, find, remove, put, command, get, set, del, set_nx, check, lock, store,
  get_status, unlock, idempotency_key, idempotency_lock, idempotency_status, default_ttl, lock_ttl,
}
use ledger_engine.Redis.Keys.{
  status_key, lock_key, lock_status, find-remove, find-put_other, find-put,
}
use ledger_engine.Http.{Request, Response}
use ledger_engine.Http.Idempotency.{Site, is_write, replayed, idempotency}

-- The answer to a request that is sent again: the body and the status of the first one, 200 where it
-- had none, with the two headers of a replay.
abbrev pub replay_of : Response → Response
replay_of first = record {
  status = if first.status == 0 then 200 else first.status;
  headers = ("Content-Type", "application/json") ∷ ("Idempotency-Replayed", "true") ∷ [];
  body = first.body;
}

module _ (redis : Redis.Server) (up : (n : ℕ) → redis.fault n ≡ none) where
  -- The response is found for as long as it lives.
  found :
      (key : String) (body : Bytes) (status : ℕ) (s : Store) (later : ℕ)
      → redis.now later < redis.now s.calls + default_ttl
      → find (redis.now later) (idempotency_key key) (store redis key body status s).1.items
        ≡ some body
  unfolding store set del command
  found key body status s later h =
      rw (up s.calls, up (s.calls + 1), up (s.calls + 1 + 1))
        (find-remove _ (idempotency_key key) (idempotency_lock key) _ (lock_key key)
          ∙ find-put_other _ (idempotency_key key) _ _ (status_key key)
          ∙ find-put _ _ _ h)

  found_status :
      (key : String) (body : Bytes) (status : ℕ) (s : Store) (later : ℕ)
      → redis.now later < redis.now (s.calls + 1) + default_ttl
      → find (redis.now later) (idempotency_status key) (store redis key body status s).1.items
        ≡ some (redis.digits status)
  unfolding store set del command
  found_status key body status s later h =
      rw (up s.calls, up (s.calls + 1), up (s.calls + 1 + 1))
        (find-remove _ (idempotency_status key) (idempotency_lock key) _ (lock_status key)
          ∙ find-put _ _ _ h)

  store-calls :
      (key : String) (body : Bytes) (status : ℕ) (s : Store)
      → (store redis key body status s).1.calls ≡ s.calls + 3
  unfolding store set del command
  store-calls key body status s =
      rw (up s.calls, up (s.calls + 1), up (s.calls + 1 + 1)) (omega arith)

  module _ {S : Type 0} (error_json : String → Bytes)
      (next : Request → S → Option Response × S) where
    -- A write request with a key that is new and not locked.
    pub record IsNew (r : Request) (w : Site S) : Type 0 where
      pub write : is_write r ≡ true
      pub keyed : str_eq r.idempotency_key "" ≡ false
      pub unknown :
          find (redis.now w.redis.calls) (idempotency_key r.idempotency_key) w.redis.items ≡ none
      pub unlocked :
          find (redis.now (w.redis.calls + 1)) (idempotency_lock r.idempotency_key) w.redis.items
          ≡ none

    -- The store once the lock is held.
    abbrev held : Request → Site S → Store
    held r w = record {
      items =
          put
            (record {
              key = idempotency_lock r.idempotency_key;
              value = redis.utf8 "processing";
              expires = redis.now (w.redis.calls + 1) + lock_ttl;
            })
            w.redis.items;
      calls = w.redis.calls + 1 + 1;
    }

    -- The site once the request is answered.
    abbrev after : Request → Site S → Response → S → Site S
    after r w response inner = record {
      redis = (store redis r.idempotency_key response.body response.status (held r w)).1;
      inner = inner;
    }

    idempotency-IsNew :
        (r : Request) (w : Site S) (response : Response) (inner : S)
        → IsNew r w
        → next r w.inner ≡ (some response, inner)
        → idempotency redis error_json next r w ≡ (some response, after r w response inner)
    unfolding idempotency check lock get set_nx command store set del
    idempotency-IsNew r w response inner n e =
        rw (n.write, n.keyed, up w.redis.calls, n.unknown, up (w.redis.calls + 1), n.unlocked, e)
          (rw
            (
              up (w.redis.calls + 1 + 1),
              up (w.redis.calls + 1 + 1 + 1),
              up (w.redis.calls + 1 + 1 + 1 + 1),
            )
            refl)

    idempotency-found :
        (r : Request) (s : Store) (inner : S) (body : Bytes) (status : ℕ)
        → is_write r ≡ true
        → str_eq r.idempotency_key "" ≡ false
        → find (redis.now s.calls) (idempotency_key r.idempotency_key) s.items ≡ some body
        → find (redis.now (s.calls + 1)) (idempotency_status r.idempotency_key) s.items
          ≡ some (redis.digits status)
        → idempotency redis error_json next r (record { redis = s; inner = inner }) ≡ (
          some (replayed (ok status) body),
          record { redis = record s { calls = s.calls + 1 + 1 }; inner = inner },
        )
    unfolding idempotency check get get_status command
    idempotency-found r s inner body status write keyed cached coded =
        rw (write, keyed, up s.calls, cached, up (s.calls + 1), coded, redis.to_int-digits status)
          refl

    -- With a Redis server that answers every command: a POST or PUT request with a key that is
    -- neither stored nor locked, to which the handler responds, is answered with that response; and
    -- the next POST or PUT with the key, less than 24 hours after the response was stored, is
    -- answered with the same body and status, 200 in place of none, and does not change the state
    -- behind the middleware.
    pub idempotency-replay :
        (r again : Request) (w : Site S) (response : Response) (inner : S)
        → IsNew r w
        → next r w.inner ≡ (some response, inner)
        → again.idempotency_key ≡ r.idempotency_key
        → is_write again ≡ true
        → redis.now (w.redis.calls + 5) < redis.now (w.redis.calls + 2) + default_ttl
        → redis.now (w.redis.calls + 6) < redis.now (w.redis.calls + 3) + default_ttl
        → let first = idempotency redis error_json next r w in
          let second = idempotency redis error_json next again first.1 in
          (first.0 ≡ some response)
          × (second.0 ≡ some (replay_of response))
          × (first.1.inner ≡ inner)
          × (second.1.inner ≡ inner)
    idempotency-replay r again w response inner n e same write soon soon' =
        let key = r.idempotency_key in
        let s = (after r w response inner).redis in
        let two : w.redis.calls + 2 ≡ w.redis.calls + 1 + 1 = omega arith in
        let three : w.redis.calls + 3 ≡ w.redis.calls + 1 + 1 + 1 = omega arith in
        let six : w.redis.calls + 5 + 1 ≡ w.redis.calls + 6 = omega arith in
        let counted : s.calls ≡ w.redis.calls + 5 =
          store-calls key response.body response.status (held r w) ∙ omega arith in
        let at_check =
          found key response.body response.status (held r w) (w.redis.calls + 5) (rw two at soon) in
        let at_status =
          found_status key response.body response.status (held r w) (w.redis.calls + 6)
            (rw three at soon') in
        let second =
          idempotency-found again s inner response.body response.status write (rw same n.keyed)
            (rw (same, counted) at_check) (rw (same, counted, six) at_status) in
        rw (idempotency-IsNew r w response inner n e)
          (refl, ap (λ q. q.0) second, refl, ap (λ q. q.1.inner) second)
