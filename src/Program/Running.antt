-- ===== src/Program/Running.antt =====
-- The running program: requests through the router and ticks of the outbox worker, one at a time.
use ledger_engine.Prelude.{
  ℕ, zero, suc, ◌*◌, ◌≡◌, ◌≤◌, refl, sym, ap, ◌∙◌, String, none, some, List, [], ◌∷◌,
}
use ledger_engine.Prelude.Rows.{In}
use ledger_engine.Errors.{ok}
use ledger_engine.Http.{Request, Handler}
use ledger_engine.Http.Handlers.Keeping.{Serves, Queries, handle-Serves}
use ledger_engine.Http.Router.Keeping.{Endpoints, new_router-Serves}
use ledger_engine.Ledger.Event.{Payload}
use ledger_engine.App.Invariants.{Upholds}
use ledger_engine.App.OutboxWorker.{EventPublisher, batch_size, polls}
use ledger_engine.App.OutboxWorker.Delivery.{IsBroker}
use ledger_engine.App.OutboxWorker.Delivery.Invariant.{IsSafe, writing-IsSafe}
use ledger_engine.App.OutboxWorker.Delivery.Safety.{here, polling-IsSafe, Reach-IsSafe}
use ledger_engine.App.OutboxWorker.Delivery.Eventual.{event_message, IsSafe-delivers}
use ledger_engine.App.OutboxWorker.Draining.{pending}
use ledger_engine.Postgres.Tables.{EventRow, Db, empty}
use ledger_engine.Postgres.Outbox.Apart.{
  Apart, save-Apart, find_by_id-Apart, find_all-Apart, project_account_opened-Apart,
  project_transaction_recorded-Apart, get_account_balance-Apart, list_accounts-Apart,
  get_transaction_history-Apart, check_outbox_backlog-Apart,
}
use ledger_engine.Health.{health}
use ledger_engine.Program.{
  Process, Outside, Deployment, Job, request, tick, service, ledger_service, query_service,
  health_handler, deps, router, outbox_of, work, run,
}

-- The handlers that are not of this repository leave the process as it is.
pub record IsQuiet (o : Outside) : Type 0 where
  pub not_found : (r : Request) (s : Process) → (o.chi.not_found r s).1 ≡ s
  pub prometheus : (r : Request) (s : Process) → (o.chi.prometheus r s).1 ≡ s
  pub file_server : (r : Request) (s : Process) → (o.file_server r s).1 ≡ s

abbrev pub ticks : ℕ → List Job
ticks zero = []
ticks (suc n) = tick ∷ ticks n

module _ {B : Type 0} (o : Outside) (publisher : EventPublisher B)
    (broker : IsBroker publisher) where
  -- No event is lost, where the broker has reached `b`.
  abbrev Safe : B → Process → Type 0
  Safe b s = IsSafe o.pg publisher broker (record { db = s.db; broker = b })

  Apart-IsSafe :
      (b : B) (start db : Db)
      → Apart start db
      → IsSafe o.pg publisher broker (record { db = start; broker = b })
      → IsSafe o.pg publisher broker (record { db = db; broker = b })
  Apart-IsSafe b start db same safe = record {
    covered = rw (same.events, same.outbox) safe.covered;
    backed = rw same.outbox safe.backed;
    numbered = rw (same.outbox, same.sequence) safe.numbered;
  }

  apart : (start : Db) → Apart start start
  apart start = record { events = refl; outbox = refl; sequence = refl }

  ledger_service-Upholds : (b : B) → Upholds (Safe b) (ledger_service o)
  unfolding service
  ledger_service-Upholds b = record {
    now = λ s h. h;
    new_uuid = λ s h. h;
    save = λ a s h. Apart-IsSafe b s.db _ (save-Apart o.pg s.db o.uuid a s.db (apart s.db)) h;
    find_by_id =
        λ id s h. Apart-IsSafe b s.db _ (find_by_id-Apart o.pg s.db o.uuid id s.db (apart s.db)) h;
    find_all = λ s h. Apart-IsSafe b s.db _ (find_all-Apart o.pg s.db o.uuid s.db (apart s.db)) h;
    save_transaction = λ tx s h. h;
    appends = λ id type version events s h.
        writing-IsSafe o.pg publisher broker id type version events
          (record { db = s.db; broker = b }) h;
    projector = (
      λ event s h.
          Apart-IsSafe b s.db _ (project_account_opened-Apart o.pg s.db event s.db (apart s.db)) h,
      λ event s h.
          Apart-IsSafe b s.db _
            (project_transaction_recorded-Apart o.pg s.db event s.db (apart s.db)) h,
    );
  }

  query_service-Queries : (b : B) → Queries (Safe b) (query_service o.pg)
  query_service-Queries b = record {
    get_account_balance = λ id s h.
        Apart-IsSafe b s.db _ (get_account_balance-Apart o.pg s.db id s.db (apart s.db)) h;
    list_accounts =
        λ s h. Apart-IsSafe b s.db _ (list_accounts-Apart o.pg s.db s.db (apart s.db)) h;
    get_transaction_history = λ id limit offset s h.
        Apart-IsSafe b s.db _
          (get_transaction_history-Apart o.pg s.db id limit offset s.db (apart s.db)) h;
  }

  health_handler-Serves : (b : B) → Serves (Safe b) (health_handler o)
  unfolding health_handler health
  health_handler-Serves b r s h =
      Apart-IsSafe b s.db _ (check_outbox_backlog-Apart o.pg s.db s.db (apart s.db)) h

  quiet-Endpoints : (b : B) → IsQuiet o → Endpoints (Safe b) o.chi (deps o)
  quiet-Endpoints b quiet = record {
    not_found = λ r s h. rw (quiet.not_found r s) h;
    prometheus = λ r s h. rw (quiet.prometheus r s) h;
    handle = handle-Serves o.codec (ledger_service-Upholds b) (query_service-Queries b);
    static_fs = λ files e r s h. served files e r s h;
    health = health_handler-Serves b;
  }
    where
      served :
          (files : Handler Process)
          → some o.file_server ≡ some files
          → (r : Request) (s : Process) → Safe b s
          → Safe b (files r s).1
      served files e r s h =
          let same : o.file_server ≡ files = cc e in
          rw (ap (λ (f : Handler Process). (f r s).1) (sym same) ∙ quiet.file_server r s) h

  work-IsSafe :
      (j : Job) (w : Deployment B)
      → IsQuiet o
      → IsSafe o.pg publisher broker (outbox_of o publisher w)
      → IsSafe o.pg publisher broker (outbox_of o publisher (work o publisher j w))
  unfolding work router
  work-IsSafe (request r) w quiet safe =
      new_router-Serves (Safe w.broker) o.now o.error_json o.chi (deps o)
        (quiet-Endpoints w.broker quiet) r w.served safe
  work-IsSafe tick w quiet safe =
      polling-IsSafe o.pg publisher broker (outbox_of o publisher w) safe

  jobs-IsSafe :
      (js : List Job) (w : Deployment B)
      → IsQuiet o
      → IsSafe o.pg publisher broker (outbox_of o publisher w)
      → IsSafe o.pg publisher broker (outbox_of o publisher (run o publisher js w))
  unfolding run
  jobs-IsSafe [] w quiet safe = safe
  jobs-IsSafe (j ∷ js) w quiet safe = jobs-IsSafe js _ quiet (work-IsSafe j w quiet safe)

  -- Ticks alone are polls.
  run-ticks :
      (n : ℕ) (w : Deployment B)
      → outbox_of o publisher (run o publisher (ticks n) w)
        ≡ polls o.pg publisher n (outbox_of o publisher w)
  unfolding run work
  run-ticks zero w = refl
  run-ticks (suc n) w = run-ticks n (work o publisher tick w)

  empty-IsSafe :
      (start : Deployment B)
      → start.served.inner.inner.db ≡ empty
      → IsSafe o.pg publisher broker (outbox_of o publisher start)
  empty-IsSafe start fresh =
      let e : outbox_of o publisher start ≡ record { db = empty; broker = start.broker } =
        ap (λ (db : Db). record { db = db; broker = start.broker }) fresh in
      rw e (Reach-IsSafe o.pg publisher broker start.broker _ here)

  -- For handlers outside of the repository that leave the process alone, and a broker that delivers
  -- what it takes without an error and keeps what was delivered: whatever the servers answer, after
  -- any requests through the router and any ticks of the outbox worker, one at a time from an empty
  -- database, each event row has an outbox row that carries it, each outbox row marked as published
  -- was delivered, and the ids of the outbox rows are distinct and below the next one.
  pub run-IsSafe :
      (js : List Job) (start : Deployment B)
      → IsQuiet o
      → start.served.inner.inner.db ≡ empty
      → IsSafe o.pg publisher broker (outbox_of o publisher (run o publisher js start))
  run-IsSafe js start quiet fresh = jobs-IsSafe js start quiet (empty-IsSafe start fresh)

  -- For handlers outside of the repository that leave the process alone, and a broker that delivers
  -- what it takes without an error and keeps what was delivered: after any requests through the
  -- router and any ticks of the outbox worker, one at a time from an empty database, whatever
  -- failed on the way, if from then on the server answers every call and the broker takes every
  -- message, n more ticks, where at most 50 n entries wait, leave every event of the event table
  -- delivered.
  pub run-deliver :
      (since : ℕ) (up : (n : ℕ) → since ≤ n → o.pg.fault n ≡ none)
      (accepts : (type aggregate : String) (payload : Payload) (b : B)
        → (publisher.publish type aggregate payload b).0 ≡ ok tt)
      (js : List Job) (start w : Deployment B) (n : ℕ)
      → IsQuiet o
      → start.served.inner.inner.db ≡ empty
      → w ≡ run o publisher js start
      → since ≤ w.served.inner.inner.db.calls
      → pending (outbox_of o publisher w) ≤ n * batch_size
      → (r : EventRow) → In r w.served.inner.inner.db.tables.events
      → broker.delivered (run o publisher (ticks n) w).broker (event_message r)
  run-deliver since up accepts js start w n quiet fresh reached_by reached enough r inside =
      let safe : IsSafe o.pg publisher broker (outbox_of o publisher w) =
        rw reached_by (run-IsSafe js start quiet fresh) in
      IsSafe-delivers o.pg publisher broker since up accepts n (outbox_of o publisher w)
        (outbox_of o publisher (run o publisher (ticks n) w)) (run-ticks n w)
        (jobs-IsSafe (ticks n) w quiet safe) reached enough r inside
