-- ===== src/Http/Idempotency.antt =====
-- internal/infra/http/idempotency.go: a write request with a key is served once.
pub mod Exclusion
pub mod Concurrent
pub mod Replay
use ledger_engine.Prelude.{
  ⊤, ℕ, Bool, true, false, not, ◌||◌, ◌==◌, if◌then◌else◌, str_eq, String, Option, none, some, List,
  [], ◌∷◌,
}
use ledger_engine.Errors.{Error, Result, ok, err}
use ledger_engine.Redis
use ledger_engine.Redis.{Store, check, get_status, lock, store, unlock}
use ledger_engine.Http.{Bytes, Request, Response, write_json}

-- The idempotency store, and the state that the handlers behind the middleware work on.
pub record Site (S : Type 0) : Type 0 where
  pub redis : Store
  pub inner : S

-- r.Method == http.MethodPost || r.Method == http.MethodPut
abbrev pub is_write : Request → Bool
is_write r = str_eq r.method "POST" || str_eq r.method "PUT"

-- if status == 0 { status = http.StatusOK }, where a failed GetStatus returned 0
abbrev pub replay_status : Result ℕ → ℕ
replay_status (err _) = 200
replay_status (ok status) = if status == 0 then 200 else status

abbrev pub replayed : Result ℕ → Bytes → Response
replayed status cached = record {
  status = replay_status status;
  headers = ("Content-Type", "application/json") ∷ ("Idempotency-Replayed", "true") ∷ [];
  body = cached;
}

-- A handler that panics has no response, and the middleware panics with it. `error_json` is the JSON of an errorResponse.
module _ {S : Type 0} (redis : Redis.Server) (error_json : String → Bytes)
    (next : Request → S → Option Response × S) where
  abbrev pub retry_later : Response
  retry_later = record {
    status = 409;
    headers = ("Retry-After", "1") ∷ ("Content-Type", "application/json") ∷ [];
    body = error_json "request is already being processed";
  }

  abbrev serve : Request → Site S → Option Response × Site S
  serve r w = let (response, inner) = next r w.inner in (response, record w { inner = inner })

  -- if err := store.Store(…); err != nil { store.Unlock(ctx, key) }
  abbrev pub stored : String → Result ⊤ × Store → Store
  stored key (ok _, s) = s
  stored key (err _, s) = (unlock redis key s).1

  abbrev pub finish : String → Store → Option Response × S → Option Response × Site S
  finish key s (none, inner) = (none, record { redis = s; inner = inner })
  finish key s (some response, inner) = (
    some response,
    record { redis = stored key (store redis key response.body response.status s); inner = inner },
  )

  abbrev process : Request → Site S → Option Response × Site S
  process r w = finish r.idempotency_key w.redis (next r w.inner)

  abbrev pub locked : Request → Result Bool × Store → S → Option Response × Site S
  locked r (err _, s) inner = (
    some (write_json 500 (error_json "idempotency lock failed")),
    record { redis = s; inner = inner },
  )
  locked r (ok false, s) inner = (some retry_later, record { redis = s; inner = inner })
  locked r (ok true, s) inner = process r (record { redis = s; inner = inner })

  abbrev pub checked : Request → Result (Option Bytes) × Store → S → Option Response × Site S
  checked r (err _, s) inner = (
    some (write_json 500 (error_json "idempotency check failed")),
    record { redis = s; inner = inner },
  )
  checked r (ok (some cached), s) inner =
      let (status, s') = get_status redis r.idempotency_key s in
      (some (replayed status cached), record { redis = s'; inner = inner })
  checked r (ok none, s) inner = locked r (lock redis r.idempotency_key s) inner

  unfoldable pub idempotency : Request → Site S → Option Response × Site S
  idempotency r w =
      if not (is_write r) || str_eq r.idempotency_key ""
      then serve r w
      else checked r (check redis r.idempotency_key w.redis) w.inner

  abbrev took_lock : Result Bool × Store → Bool
  took_lock (err _, _) = false
  took_lock (ok taken, _) = taken

  abbrev is_unseen : Request → Result (Option Bytes) × Store → Bool
  is_unseen r (err _, _) = false
  is_unseen r (ok (some cached), _) = false
  is_unseen r (ok none, s) = took_lock (lock redis r.idempotency_key s)

  -- Whether next.ServeHTTP is called: no key is looked at, or its lock was taken.
  unfoldable pub is_handed_on : Request → Site S → Bool
  is_handed_on r w =
      if not (is_write r) || str_eq r.idempotency_key ""
      then true
      else is_unseen r (check redis r.idempotency_key w.redis)
