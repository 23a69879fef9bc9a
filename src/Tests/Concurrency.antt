-- ===== src/Tests/Concurrency.antt =====
-- Requests that are served at the same time: instances of the theorems about them.
use ledger_engine.Prelude.{ℕ, ◌≡◌, ◌==◌, if◌then◌else◌, some, none, refl, arith}
use ledger_engine.Errors.{opaque_error}
use ledger_engine.Redis
use ledger_engine.Redis.{check, get, command, find, lock, set_nx, set, del, unlock, remove}
use ledger_engine.Http.{Request}
use ledger_engine.Http.Idempotency.Concurrent.{
  arrived, processing, Serving, checking, locking, Reach, here, step, advance,
}
use ledger_engine.Http.Idempotency.Concurrent.Mutual.{Reach-one_processing}
use ledger_engine.Tests.Web.{redis, post, count_runs, fresh}

-- The same request, over and over.
abbrev posts : ℕ → Request
posts i = post

abbrev waiting : Serving ℕ
waiting = record { redis = fresh.redis; inner = fresh.inner; phase = λ i. arrived }

abbrev go_on : ℕ → Serving ℕ → Serving ℕ
go_on i w = advance redis count_runs posts i w

-- Two requests were looked for, and the first one took the lock.
abbrev first_locked : Serving ℕ
first_locked = go_on 0 (go_on 1 (go_on 0 waiting))

first_locked-Reach : Reach redis count_runs posts waiting first_locked
unfolding check get command find lock set_nx
first_locked-Reach =
    step (step (step here (checking 0 refl refl)) (checking 1 refl refl)) (locking 0 refl refl)

first_locked-processing : first_locked.phase 0 ≡ processing
unfolding check get command find lock set_nx
first_locked-processing = refl

first_locked-calls : first_locked.redis.calls ≡ 3
unfolding check get command find lock set_nx
first_locked-calls = refl

abbrev holder : ℕ
holder = 0

Reach-one_processing_example : holder ≡ holder
Reach-one_processing_example =
    Reach-one_processing redis count_runs posts 0 10 (λ n in_run. refl)
      (λ m n in_run in_run'. omega (arith, in_run, in_run')) waiting first_locked refl (λ i. refl)
      first_locked-Reach (omega (arith, first_locked-calls)) holder holder first_locked-processing
      first_locked-processing refl

-- The third command of all is not answered.
abbrev one_timeout : Redis.Server
one_timeout = record redis { fault = λ n. if n == 2 then some (opaque_error "timeout") else none }

abbrev go_past : ℕ → Serving ℕ → Serving ℕ
go_past i w = advance one_timeout count_runs posts i w

abbrev served_once : Serving ℕ
served_once = go_past 0 (go_past 0 (go_past 0 (go_past 0 (go_past 0 (go_past 0 waiting)))))

-- The first request is answered, but its response was not stored. The second one takes the lock, which
-- the first one then removes, and the third one takes it too.
abbrev raced : Serving ℕ
raced = go_past 2 (go_past 2 (go_past 0 (go_past 1 (go_past 1 served_once))))

raced_processing : (raced.phase 1 ≡ processing) × (raced.phase 2 ≡ processing)
unfolding check get command find lock set_nx set del unlock remove
raced_processing = (refl, refl)
