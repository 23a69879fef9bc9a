-- ===== src/Http/Idempotency/Concurrent/Mutual.antt =====
-- Of the requests with one key, one at a time is processed.
use ledger_engine.Prelude.{ℕ, ◌+◌, ◌≡◌, ◌≢◌, ◌<◌, ◌≤◌, String, Option, none, arith}
use ledger_engine.Redis
use ledger_engine.Redis.{
  Bytes, Item, Store, find, remove, put, command, get, set, del, set_nx, check, lock, store,
  get_status, unlock, idempotency_key, idempotency_lock, idempotency_status, default_ttl, lock_ttl,
}
use ledger_engine.Http.{Request, Response}
use ledger_engine.Http.Idempotency.Concurrent.{
  arrived, processing, done, Serving, key, set_body, set_status, Step, checking, replaying, locking,
  serving, storing_body, storing_status, releasing, unlocking, Reach, here, step,
}
use ledger_engine.Http.Idempotency.Concurrent.Locks.{
  other_lock, check-items, get_status-items, get_status-calls, check-calls, lock-calls, Within,
  del-Live, set-Live, set-calls, set-ok, del-calls, del-ok, unlock-calls, lock-Taken,
}
use ledger_engine.Http.Idempotency.Concurrent.Calls.{
  after_check-calls, after_lock-calls, after_serve-calls, after_release-calls,
}
use ledger_engine.Http.Idempotency.Concurrent.Exclusive.{
  arrived-free, IsExclusive, Shrinks-IsExclusive, leaves, stays, after_check-IsExclusive,
  after_lock-IsExclusive, after_serve-IsExclusive, after_release-IsExclusive,
}
use ledger_engine.Http.Idempotency.Concurrent.Answered.{
  arrived-IsFine, AllFine, at-IsFine, after_check-AllFine, after_lock-AllFine, after_serve-AllFine,
  after_body-AllFine, body_stored-ok, after_status-AllFine, after_release-AllFine,
}

module _ {S : Type 0} (redis : Redis.Server) (next : Request → S → Option Response × S)
    (requests : ℕ → Request) (first last : ℕ)
    (up : (n : ℕ) → Within redis first last n → redis.fault n ≡ none)
    (brief : (m n : ℕ)
      → Within redis first last m
      → Within redis first last n
      → redis.now m < redis.now n + lock_ttl) where
  abbrev name : ℕ → String
  name i = key redis next requests i

  -- The run has begun, and what was reached while it lasts is exclusive.
  record IsRunning (w : Serving S) : Type 0 where
    begun : first ≤ w.redis.calls
    exclusive : w.redis.calls ≤ last → IsExclusive redis next requests first last brief w
    fine : w.redis.calls ≤ last → AllFine redis next requests w

  Step-IsRunning : {w w' : Serving S} → Step redis next requests w w' → IsRunning w → IsRunning w'
  Step-IsRunning {w} (checking i e q) run =
      let r = check redis (name i) w.redis in
      let more = after_check-calls redis next requests i w r (check-calls redis (name i) w.redis) in
      rw q (record {
        begun = omega (arith, run.begun, more);
        exclusive = λ upto.
            after_check-IsExclusive redis next requests first last brief i w r
              (check-items redis (name i) w.redis) (run.exclusive (omega (arith, upto, more)));
        fine = λ upto.
            after_check-AllFine redis next requests i w r (run.fine (omega (arith, upto, more)));
      })
  Step-IsRunning {w} (replaying i e q) run =
      let more = get_status-calls redis (name i) w.redis in
      rw q (record {
        begun = omega (arith, run.begun, more);
        exclusive = λ upto.
            let ex = run.exclusive (omega (arith, upto, more)) in
            Shrinks-IsExclusive redis next requests first last brief w _
              (leaves redis next requests first last brief i done
                (get_status redis (name i) w.redis).1 w.inner w (λ h. h)
                (λ j apart h. rw (get_status-items redis (name i) w.redis) (ex.held j h)))
              ex;
        fine = λ upto.
            at-IsFine redis next requests w.phase i done tt (run.fine (omega (arith, upto, more)));
      })
  Step-IsRunning {w} (locking i e q) run =
      let r = lock redis (name i) w.redis in
      let more = after_lock-calls redis next requests i w r (lock-calls redis (name i) w.redis) in
      rw q (record {
        begun = omega (arith, run.begun, more);
        exclusive = λ upto.
            let before : w.redis.calls ≤ last = omega (arith, upto, more) in
            after_lock-IsExclusive redis next requests first last brief i w r (run.begun, before)
              (lock-Taken redis first last brief (name i) w.redis (run.begun, before))
              (run.exclusive before);
        fine = λ upto.
            after_lock-AllFine redis next requests i w r (run.fine (omega (arith, upto, more)));
      })
  Step-IsRunning {w} (serving i e q) run =
      let p = next (requests i) w.inner in
      let same = after_serve-calls redis next requests i w p in
      rw q (record {
        begun = omega (arith, run.begun, same);
        exclusive = λ upto.
            after_serve-IsExclusive redis next requests first last brief i w p e
              (run.exclusive (omega (arith, upto, same)));
        fine = λ upto.
            after_serve-AllFine redis next requests i w p (run.fine (omega (arith, upto, same)));
      })
  Step-IsRunning {w} (storing_body i response e q) run =
      let more = set-calls redis (idempotency_key (name i)) response.body default_ttl w.redis in
      rw q (record {
        begun = omega (arith, run.begun, more);
        exclusive = λ upto.
            let before : w.redis.calls ≤ last = omega (arith, upto, more) in
            stays redis next requests first last brief i _ _ w (rw e tt)
              (λ k live.
                set-Live redis first last brief (idempotency_key (name i)) (idempotency_lock k)
                  response.body default_ttl w.redis (omega arith) (run.begun, before) live)
              (run.exclusive before);
        fine = λ upto.
            let before : w.redis.calls ≤ last = omega (arith, upto, more) in
            after_body-AllFine redis next requests i response
              (set_body redis next requests i response w.redis) w
              (set-ok redis (idempotency_key (name i)) response.body default_ttl w.redis
                (up w.redis.calls (run.begun, before)))
              (run.fine before);
      })
  Step-IsRunning {w} (storing_status i response r e q) run =
      let digits = redis.digits response.status in
      let more = set-calls redis (idempotency_status (name i)) digits default_ttl w.redis in
      rw q (record {
        begun = omega (arith, run.begun, more);
        exclusive = λ upto.
            let before : w.redis.calls ≤ last = omega (arith, upto, more) in
            stays redis next requests first last brief i _ _ w (rw e tt)
              (λ k live.
                set-Live redis first last brief (idempotency_status (name i)) (idempotency_lock k)
                  digits default_ttl w.redis (omega arith) (run.begun, before) live)
              (run.exclusive before);
        fine = λ upto.
            let before : w.redis.calls ≤ last = omega (arith, upto, more) in
            after_status-AllFine redis next requests i r
              (set_status redis next requests i response w.redis) w
              (body_stored-ok redis next requests response r (w.phase i) e (run.fine before i))
              (set-ok redis (idempotency_status (name i)) digits default_ttl w.redis
                (up w.redis.calls (run.begun, before)))
              (run.fine before);
      })
  Step-IsRunning {w} (releasing i r₁ r₂ e q) run =
      let p = del redis (idempotency_lock (name i)) w.redis in
      let called = del-calls redis (idempotency_lock (name i)) w.redis in
      let same = after_release-calls redis next requests i r₁ r₂ p w in
      rw q (record {
        begun = omega (arith, run.begun, called, same);
        exclusive = λ upto.
            let ex = run.exclusive (omega (arith, upto, called, same)) in
            after_release-IsExclusive redis next requests first last brief i r₁ r₂ p w e
              (λ j apart h.
                let differ : name i ≢ name j = λ k. apart (ex.alone i j (rw e tt) h k) in
                del-Live redis first last (idempotency_lock (name i)) (idempotency_lock (name j))
                  w.redis (other_lock (name i) (name j) differ) (ex.held j h))
              ex;
        fine = λ upto.
            let before : w.redis.calls ≤ last = omega (arith, upto, called, same) in
            after_release-AllFine redis next requests i r₁ r₂ p w e
              (del-ok redis (idempotency_lock (name i)) w.redis
                (up w.redis.calls (run.begun, before)))
              (run.fine before);
      })
  Step-IsRunning {w} (unlocking i e q) run =
      let called = unlock-calls redis (name i) w.redis in
      rw q (record {
        begun = omega (arith, run.begun, called);
        exclusive = λ upto. absurd (rw e at (run.fine (omega (arith, upto, called)) i));
        fine = λ upto. absurd (rw e at (run.fine (omega (arith, upto, called)) i));
      })

  Reach-IsRunning :
      (start w : Serving S) → IsRunning start → Reach redis next requests start w → IsRunning w
  Reach-IsRunning start _ run here = run
  Reach-IsRunning start _ run (step there s) = Step-IsRunning s (Reach-IsRunning start _ run there)

  -- Of write requests with keys that are served at the same time, the commands and the handlers of
  -- one coming between those of others in any order: in every state that is reached from one where
  -- none has begun, if the Redis server answers every command of the run without an error, and its
  -- times at all commands of the run are less than 30 seconds, the time to live of a lock, apart,
  -- two requests with the same key whose handlers are both to run are one.
  pub Reach-one_processing :
      (start w : Serving S)
      → start.redis.calls ≡ first
      → ((i : ℕ) → start.phase i ≡ arrived)
      → Reach redis next requests start w
      → w.redis.calls ≤ last
      → (i j : ℕ) → w.phase i ≡ processing
      → w.phase j ≡ processing
      → (requests i).idempotency_key ≡ (requests j).idempotency_key
      → i ≡ j
  Reach-one_processing start w begun new there upto i j at_i at_j same =
      let run =
        Reach-IsRunning start w
          (record {
            begun = omega (arith, begun);
            exclusive = λ _. record {
              held = λ i h. absurd (arrived-free (start.phase i) (new i) h);
              alone = λ i j h. absurd (arrived-free (start.phase i) (new i) h);
            };
            fine = λ _ i. arrived-IsFine (start.phase i) (new i);
          })
          there in
      (run.exclusive upto).alone i j (rw at_i tt) (rw at_j tt) same
