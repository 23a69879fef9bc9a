-- ===== src/Tests/Wiring.antt =====
-- The wired program: instances of the theorems about it.
use ledger_engine.Prelude.{ℕ, ◌≡◌, refl, inl, inr, none, some, List, [], ◌∷◌, String, arith}
use ledger_engine.Errors.{ok}
use ledger_engine.Exec.Rules.{Outcome}
use ledger_engine.Ledger.Entry.{debit, credit}
use ledger_engine.App.Commands.{RecordTransactionCmd}
use ledger_engine.App.Service.Recording.{record_transaction}
use ledger_engine.InMemory
use ledger_engine.Postgres.Tables
use ledger_engine.Postgres.Tables.{AccountRow, BalanceRow, Tables, Db}
use ledger_engine.Postgres.Accounts.Balances.{AreWide}
use ledger_engine.Projection.{balance_at}
use ledger_engine.Program.{Process, service}
use ledger_engine.Program.Columns.{SameReadModel}
use ledger_engine.Program.Sync.{InSync, Carried, record_transaction-InSync}
use ledger_engine.Prelude.Int64.{add64}
use ledger_engine.Prelude.Rows.{In, select}
use ledger_engine.Redis.{check, get, command, find, lock, set_nx, store}
use ledger_engine.Metrics.{Instrument, Metrics, setup_metrics, record_request}
use ledger_engine.Ledger.Money.{new_money, is_valid_currency}
use ledger_engine.Ledger.Identifiers.{generate_account_id}
use ledger_engine.Ledger.Event.{event_type, event_type_string, occurred_at}
use ledger_engine.Account.{new_account_with_type}
use ledger_engine.App.Service.Accounts.{append_to, append_event, open_account}
use ledger_engine.App.OutboxWorker.Log.{log_publisher, log_broker}
use ledger_engine.App.OutboxWorker.Draining.{pending}
use ledger_engine.App.OutboxWorker.Delivery.{Message}
use ledger_engine.App.OutboxWorker.Delivery.Invariant.{IsSafe}
use ledger_engine.App.OutboxWorker.Delivery.Eventual.{event_message}
use ledger_engine.Postgres.Tables.{EventRow}
use ledger_engine.Postgres.Server.{call}
use ledger_engine.Postgres.Accounts.{upsert_account, save}
use ledger_engine.Postgres.EventStore.{count_at, insert_event}
use ledger_engine.Postgres.Outbox.{insert_outbox, append_both, append_with_outbox}
use ledger_engine.Projection.{project_account_opened}
use ledger_engine.Http.{Handler}
use ledger_engine.Http.Handlers.{handle_open_account}
use ledger_engine.Http.Handlers.Json.{OpenAccountRequest}
use ledger_engine.Http.Handlers.Rejecting.{Route, open_route}
use ledger_engine.Http.Idempotency.{Site, idempotency}
use ledger_engine.Http.Idempotency.Replay.{IsNew, replay_of}
use ledger_engine.Http.Metrics.{Measured, metrics_middleware}
use ledger_engine.Http.Metrics.Counting.{count}
use ledger_engine.Http.Router.{Chi, RouterDeps, api, routes, new_router}
use ledger_engine.Http.Router.Replaying.{deps_of, new_router-replay}
use ledger_engine.Program.{Outside, Deployment, request, tick, outbox_of, work, run, router}
use ledger_engine.Program.Running.{IsQuiet, ticks, run-IsSafe, run-deliver}
use ledger_engine.Tests.Web.{redis, post, codec, up, created, count_runs, fresh}
use ledger_engine.Tests.{uuids, in_order, ticking, no_bytes, postgres}

abbrev ledger_row : String → String → ℕ → AccountRow
ledger_row id name balance = record {
  account_id = id;
  name = name;
  account_type = "ASSET";
  currency = "USD";
  balance = balance;
  status = "ACTIVE";
  created_at = 0;
  updated_at = 0;
}

abbrev view_row : String → String → ℕ → BalanceRow
view_row id name balance = record {
  account_id = id;
  name = name;
  account_type = "ASSET";
  currency = "USD";
  balance = balance;
  status = "ACTIVE";
  version = 1;
  updated_at = 0;
}

-- Alice and Bob, in both tables.
abbrev town : Process
town = record {
  db = record Tables.empty {
    tables = record Tables.empty.tables {
      accounts = ledger_row "|" "Alice" 1000 ∷ ledger_row "||" "Bob" 50 ∷ [];
      account_balances = view_row "|" "Alice" 1000 ∷ view_row "||" "Bob" 50 ∷ [];
    };
  };
  memory = InMemory.empty;
}

town-AreWide : AreWide town.db.tables.accounts
town-AreWide account b h = ground (arith, h)

town-InSync : InSync postgres uuids town.db.tables
unfolding balance_at
town-InSync = record { wide = town-AreWide; agree = λ j. refl }

abbrev payment : RecordTransactionCmd
payment = record {
  entries =
      record { account_id = record { value = 1 }; amount = 300; currency = "USD"; type = debit }
      ∷ record { account_id = record { value = 2 }; amount = 300; currency = "USD"; type = credit }
      ∷ [];
  description = "groceries";
}

record_transaction-InSync_example :
    Outcome
      (λ tx s'. Carried postgres uuids payment tx town.db.tables s'.db)
      (λ s'. SameReadModel town.db.tables s'.db.tables)
      (record_transaction (service postgres uuids in_order ticking no_bytes) payment town)
record_transaction-InSync_example =
    record_transaction-InSync postgres uuids in_order ticking no_bytes payment town
      (inl refl, (inr refl, tt)) town-InSync

abbrev opening : OpenAccountRequest
opening = record { name = "Carol"; account_type = "ASSET"; currency = "USD" }

abbrev to_open : {S : Type 0} → Handler S → Chi S
to_open none_found = record {
  matches = λ r. some (api open_route);
  route_pattern = λ r. "/api/v1/accounts";
  not_found = none_found;
  prometheus = none_found;
}

abbrev count_route : Route → Handler ℕ
count_route route = count_runs

abbrev nothing : {S : Type 0} → Handler S
nothing r s = (none, s)

abbrev outside : Outside
outside = record {
  pg = postgres;
  redis = redis;
  uuid = uuids;
  order = in_order;
  env = ticking;
  marshal = λ event. ok (123 ∷ 125 ∷ []);
  codec = record codec { decode_open_account = λ body. some opening };
  error_json = λ s. [];
  encode_health = λ h. [];
  now = λ n. n;
  chi = to_open nothing;
  file_server = nothing;
  pings = λ n. (up, up);
  uptime = λ n. "1s";
}

outside-IsQuiet : IsQuiet outside
outside-IsQuiet = record {
  not_found = λ r s. refl;
  prometheus = λ r s. refl;
  file_server = λ r s. refl;
}

abbrev unused : String → Instrument
unused name = record { name = name; recorded = [] }

abbrev no_metrics : Metrics
no_metrics = record {
  request_duration = unused "http_request_duration_seconds";
  request_count = unused "http_requests_total";
  active_accounts = unused "ledger_active_accounts";
  transaction_amount = unused "ledger_transaction_amount_cents_total";
  transfers_by_state = unused "ledger_transfers_total";
  outbox_pending = unused "outbox_pending_events";
  outbox_published = unused "outbox_published_total";
}

metrics_are_new : setup_metrics none ≡ ok no_metrics
unfolding setup_metrics
metrics_are_new = refl

abbrev booted : Deployment (List Message)
booted = record {
  served = record {
    metrics = no_metrics;
    ticks = 0;
    inner = record {
      redis = record { items = []; calls = 0 };
      inner = record { db = Tables.empty; memory = InMemory.empty };
    };
  };
  broker = [];
}

run-IsSafe_example : IsSafe postgres log_publisher log_broker (
    outbox_of outside log_publisher
      (run outside log_publisher (request post ∷ tick ∷ request post ∷ []) booted))
run-IsSafe_example =
    run-IsSafe outside log_publisher log_broker (request post ∷ tick ∷ request post ∷ []) booted
      outside-IsQuiet refl

-- Carol's account was after_opening.
abbrev after_opening : Deployment (List Message)
after_opening = run outside log_publisher (request post ∷ []) booted

abbrev carol_opened : EventRow
carol_opened = record {
  id = 1;
  aggregate_id = uuids.to_string 100;
  aggregate_type = "account";
  event_type = "account.opened";
  version = 1;
  payload = 123 ∷ 125 ∷ [];
  occurred_at = 1;
}

pending-after_opening : pending (outbox_of outside log_publisher after_opening) ≡ 1
unfolding run work router new_router metrics_middleware idempotency check get command find lock
    set_nx store routes handle_open_account open_account new_account_with_type generate_account_id
    service save upsert_account append_event append_to append_with_outbox append_both insert_event
    insert_outbox count_at call add64 project_account_opened select event_type_string new_money
    is_valid_currency record_request
pending-after_opening = refl

carol_opened-In : In carol_opened after_opening.served.inner.inner.db.tables.events
unfolding run work router new_router metrics_middleware idempotency check get command find lock
    set_nx store routes handle_open_account open_account new_account_with_type generate_account_id
    service save upsert_account append_event append_to append_with_outbox append_both insert_event
    insert_outbox count_at call add64 project_account_opened event_type_string new_money
    is_valid_currency record_request event_type occurred_at
carol_opened-In = inl refl

run-deliver_example :
    In (event_message carol_opened) (run outside log_publisher (ticks 1) after_opening).broker
run-deliver_example =
    run-deliver outside log_publisher log_broker 0 (λ n h. refl) (λ type aggregate payload b. refl)
      (request post ∷ []) booted after_opening 1 outside-IsQuiet refl refl (omega arith)
      (omega (arith, pending-after_opening)) carol_opened carol_opened-In

-- Every route counts its runs.
abbrev counting : RouterDeps ℕ
counting = deps_of count_route none redis nothing

abbrev quiet : Measured (Site ℕ)
quiet = record { metrics = no_metrics; ticks = 0; inner = fresh }

abbrev behind : Handler ℕ
behind = routes (λ n. n) (λ s. []) (to_open nothing) counting

post-IsNew : IsNew redis (λ n. refl) (λ s. []) behind post fresh
unfolding find
post-IsNew = record { write = refl; keyed = refl; unknown = refl; unlocked = refl }

behind-counts : behind post 0 ≡ (some created, 1)
unfolding routes
behind-counts = refl

abbrev counted : Handler (Measured (Site ℕ))
counted = new_router (λ n. n) (λ s. []) (to_open nothing) counting

new_router-replay_example :
    ((counted post quiet).0 ≡ some created)
    × ((counted post (counted post quiet).1).0 ≡ some (replay_of created))
    × ((counted post (counted post quiet).1).1.inner.inner ≡ 1)
    × (count (counted post (counted post quiet).1).1.metrics.request_count.recorded ≡ 2)
new_router-replay_example =
    new_router-replay (λ n. n) (λ s. []) (to_open nothing) count_route none nothing redis
      (λ n. refl) post post quiet created 1 post-IsNew behind-counts refl refl (omega arith)
      (omega arith)
