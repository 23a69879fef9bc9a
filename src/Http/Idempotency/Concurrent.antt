-- ===== src/Http/Idempotency/Concurrent.antt =====
-- Write requests with keys, served at the same time: the calls of the middleware on Redis and the
-- handler are steps, which those of other requests may come between.
pub mod Locks
pub mod Calls
pub mod Exclusive
pub mod Answered
pub mod Mutual
use ledger_engine.Prelude.{
  ⊤, ℕ, ◌≡◌, ◌==◌, Bool, true, false, if◌then◌else◌, String, Option, none, some,
}
use ledger_engine.Errors.{Result, ok, err}
use ledger_engine.Redis
use ledger_engine.Redis.{
  Bytes, Store, set, del, check, get_status, lock, unlock, first_error, idempotency_key,
  idempotency_lock, idempotency_status, default_ttl,
}
use ledger_engine.Http.{Request, Response}

-- How far a request has come: nothing was done; its response was found; it was not found; its lock was taken; its handler has
-- answered; its response was sent to be stored, and then its status, each with what the server
-- answered; the pipeline had an error; it is over.
pub data Phase : Type 0 where
  arrived found unseen processing : Phase
  answered : Response → Phase
  body_stored : Response → Result ⊤ → Phase
  status_stored : Result ⊤ → Result ⊤ → Phase
  store_failed done : Phase

-- The i-th request stands at `phase i`.
pub record Serving (S : Type 0) : Type 0 where
  pub redis : Store
  pub inner : S
  pub phase : ℕ → Phase

abbrev pub at : (ℕ → Phase) → ℕ → Phase → ℕ → Phase
at phase i p j = if j == i then p else phase j

module _ {S : Type 0} (redis : Redis.Server) (next : Request → S → Option Response × S)
    (requests : ℕ → Request) where
  abbrev pub key : ℕ → String
  key i = (requests i).idempotency_key

  abbrev pub moved : ℕ → Phase → Store → Serving S → Serving S
  moved i p s w = record w { redis = s; phase = at w.phase i p }

  abbrev pub after_check : ℕ → Result (Option Bytes) × Store → Serving S → Serving S
  after_check i (err _, s) w = moved i done s w
  after_check i (ok (some cached), s) w = moved i found s w
  after_check i (ok none, s) w = moved i unseen s w

  abbrev pub after_lock : ℕ → Result Bool × Store → Serving S → Serving S
  after_lock i (err _, s) w = moved i done s w
  after_lock i (ok false, s) w = moved i done s w
  after_lock i (ok true, s) w = moved i processing s w

  abbrev pub after_serve : ℕ → Option Response × S → Serving S → Serving S
  after_serve i (none, inner) w = record w { inner = inner; phase = at w.phase i done }
  after_serve i (some response, inner) w = record w {
    inner = inner;
    phase = at w.phase i (answered response);
  }

  -- The three commands of the pipeline of Store, one by one: all are sent, whatever the server answers.
  abbrev pub after_body : ℕ → Response → Result ⊤ × Store → Serving S → Serving S
  after_body i response (r, s) w = moved i (body_stored response r) s w

  abbrev pub after_status : ℕ → Result ⊤ → Result ⊤ × Store → Serving S → Serving S
  after_status i r₁ (r₂, s) w = moved i (status_stored r₁ r₂) s w

  -- if err := store.Store(…); err != nil { … }
  abbrev pub stored_with : ℕ → Result ⊤ → Store → Serving S → Serving S
  stored_with i (ok _) s w = moved i done s w
  stored_with i (err _) s w = moved i store_failed s w

  abbrev pub after_release : ℕ → Result ⊤ → Result ⊤ → Result ⊤ × Store → Serving S → Serving S
  after_release i r₁ r₂ (r₃, s) w = stored_with i (first_error redis r₁ r₂ r₃) s w

  abbrev pub set_body : ℕ → Response → Store → Result ⊤ × Store
  set_body i response s = set redis (idempotency_key (key i)) response.body default_ttl s

  abbrev pub set_status : ℕ → Response → Store → Result ⊤ × Store
  set_status i response s =
      set redis (idempotency_status (key i)) (redis.digits response.status) default_ttl s

  pub data Step (w w' : Serving S) : Type 0 where
    checking :
        (i : ℕ)
        → w.phase i ≡ arrived
        → w' ≡ after_check i (check redis (key i) w.redis) w
        → Step w w'
    replaying :
        (i : ℕ)
        → w.phase i ≡ found
        → w' ≡ moved i done (get_status redis (key i) w.redis).1 w
        → Step w w'
    locking :
        (i : ℕ) → w.phase i ≡ unseen → w' ≡ after_lock i (lock redis (key i) w.redis) w → Step w w'
    serving :
        (i : ℕ)
        → w.phase i ≡ processing
        → w' ≡ after_serve i (next (requests i) w.inner) w
        → Step w w'
    storing_body :
        (i : ℕ) (response : Response)
        → w.phase i ≡ answered response
        → w' ≡ after_body i response (set_body i response w.redis) w
        → Step w w'
    storing_status :
        (i : ℕ) (response : Response) (r : Result ⊤)
        → w.phase i ≡ body_stored response r
        → w' ≡ after_status i r (set_status i response w.redis) w
        → Step w w'
    releasing :
        (i : ℕ) (r₁ r₂ : Result ⊤)
        → w.phase i ≡ status_stored r₁ r₂
        → w' ≡ after_release i r₁ r₂ (del redis (idempotency_lock (key i)) w.redis) w
        → Step w w'
    unlocking :
        (i : ℕ)
        → w.phase i ≡ store_failed
        → w' ≡ moved i done (unlock redis (key i) w.redis).1 w
        → Step w w'

  pub data Reach (start : Serving S) : Serving S → Type 0 where
    here : Reach start start
    step : {w w' : Serving S} → Reach start w → Step w w' → Reach start w'

  -- What the i-th request does next.
  abbrev pub advance_from : Phase → ℕ → Serving S → Serving S
  advance_from arrived i w = after_check i (check redis (key i) w.redis) w
  advance_from found i w = moved i done (get_status redis (key i) w.redis).1 w
  advance_from unseen i w = after_lock i (lock redis (key i) w.redis) w
  advance_from processing i w = after_serve i (next (requests i) w.inner) w
  advance_from (answered response) i w = after_body i response (set_body i response w.redis) w
  advance_from (body_stored response r) i w = after_status i r (set_status i response w.redis) w
  advance_from (status_stored r₁ r₂) i w =
      after_release i r₁ r₂ (del redis (idempotency_lock (key i)) w.redis) w
  advance_from store_failed i w = moved i done (unlock redis (key i) w.redis).1 w
  advance_from done i w = w

  abbrev pub advance : ℕ → Serving S → Serving S
  advance i w = advance_from (w.phase i) i w
