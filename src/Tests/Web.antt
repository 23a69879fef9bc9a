-- ===== src/Tests/Web.antt =====
-- The HTTP interface: instances of the theorems about it.
use ledger_engine.Prelude.{
  ℕ, ◌+◌, ◌*◌, ◌≡◌, ◌↔◌, ◌⊎◌, ◌<◌, ◌≤◌, refl, true, false, Option, none, some, [], ◌∷◌, arith,
}
use ledger_engine.Errors.{ok, err, account_view_not_found}
use ledger_engine.Ledger.Money.{is_valid_currency}
use ledger_engine.Ledger.Identifiers.{equals, new_account_id}
use ledger_engine.Redis
use ledger_engine.Redis.{Bytes, find}
use ledger_engine.Http.{Request, Response}
use ledger_engine.Http.Handlers.Json.{TransferRequest, Codec}
use ledger_engine.Http.Handlers.{QueryService, handle_deposit, handle_transfer}
use ledger_engine.Http.Handlers.Rejecting.{deposit_route, handle-bad_request}
use ledger_engine.Http.Handlers.Transferring.{handle_transfer-nil}
use ledger_engine.Http.Idempotency.{Site, idempotency}
use ledger_engine.Http.Idempotency.Exclusion.{idempotency-locked}
use ledger_engine.Http.Idempotency.Replay.{replay_of, IsNew, idempotency-replay}
use ledger_engine.Health.{Ping, HealthResponse, health}
use ledger_engine.Health.Status.{waiting, health-status}
use ledger_engine.Postgres.Tables
use ledger_engine.InMemory.{World}
use ledger_engine.Tests.{ledger, town, postgres}

abbrev pub redis : Redis.Server
redis = record {
  fault = λ n. none;
  now = λ n. n;
  utf8 = λ s. [];
  to_int = elim [ [] ↦ ok 0 | n ∷ bytes ↦ ok n ];
  digits = λ n. n ∷ [];
  to_int-digits = λ n. refl;
}

abbrev pub post : Request
post = record {
  method = "POST";
  path = "/api/v1/transfers";
  idempotency_key = "k";
  account_id = "";
  body = [];
}

abbrev pub created : Response
created = record { status = 201; headers = []; body = 1 ∷ 2 ∷ [] }

-- A handler that counts its runs.
abbrev pub count_runs : Request → ℕ → Option Response × ℕ
count_runs r n = (some created, n + 1)

abbrev pub fresh : Site ℕ
fresh = record { redis = record { items = []; calls = 0 }; inner = 0 }

post-IsNew : IsNew redis (λ n. refl) (λ s. []) count_runs post fresh
unfolding find
post-IsNew = record { write = refl; keyed = refl; unknown = refl; unlocked = refl }

abbrev once : Option Response × Site ℕ
once = idempotency redis (λ s. []) count_runs post fresh

idempotency-replay_example :
    (once.0 ≡ some created)
    × ((idempotency redis (λ s. []) count_runs post once.1).0 ≡ some (replay_of created))
    × (once.1.inner ≡ 1)
    × ((idempotency redis (λ s. []) count_runs post once.1).1.inner ≡ 1)
idempotency-replay_example =
    idempotency-replay redis (λ n. refl) (λ s. []) count_runs post post fresh created 1 post-IsNew
      refl refl refl (omega arith) (omega arith)

-- A request with the key is being processed.
abbrev busy : Site ℕ
busy = record {
  redis = record {
    items = record { key = "idem:lock:k"; value = 1 ∷ []; expires = 100 } ∷ [];
    calls = 0;
  };
  inner = 7;
}

busy-lock : find 1 "idem:lock:k" busy.redis.items ≡ some (1 ∷ [])
unfolding find
busy-lock = refl

idempotency-locked_example :
    ((idempotency redis (λ s. []) count_runs post busy).1.inner ≡ 7)
    × ((idempotency redis (λ s. []) count_runs post busy).1.redis.items ≡ busy.redis.items)
idempotency-locked_example =
    idempotency-locked redis (λ s. []) count_runs post busy (1 ∷ []) refl refl busy-lock

abbrev self_transfer : TransferRequest ℕ
self_transfer = record {
  from_account_id = "|";
  to_account_id = "|";
  amount = 3;
  currency = "";
  description = "";
}

abbrev pub codec : Codec
codec = record {
  Float = ℕ;
  cents = λ f. f * 100;
  decode_open_account = λ body. none;
  decode_transaction = λ body. none;
  decode_deposit = λ body. none;
  decode_transfer = λ body. some self_transfer;
  object = λ fields. [];
  encode_view = λ view. [];
  encode_views = λ views. [];
  encode_history = λ history. [];
}

abbrev no_queries : QueryService World
no_queries = record {
  get_account_balance = λ id s. (err account_view_not_found, s);
  list_accounts = λ s. (ok [], s);
  get_transaction_history = λ id limit offset s. (ok [], s);
}

handle_transfer-nil_example : ((handle_transfer codec ledger no_queries post town).0 ≡ none) ↔ (
    (is_valid_currency "USD" ≡ false)
    ⊎ (equals (record { value = 1 }) (record { value = 1 }) ≡ true))
unfolding new_account_id
handle_transfer-nil_example =
    handle_transfer-nil codec ledger no_queries post town self_transfer (record { value = 1 })
      (record { value = 1 }) refl refl refl

abbrev rejected : Response
rejected = record { status = 400; headers = ("Content-Type", "application/json") ∷ []; body = [] }

handle_deposit_rejects : handle_deposit codec ledger no_queries post town ≡ (some rejected, town)
unfolding handle_deposit
handle_deposit_rejects = refl

handle-bad_request_example : town ≡ town
handle-bad_request_example =
    handle-bad_request codec ledger no_queries deposit_route post town town rejected
      handle_deposit_rejects refl

abbrev pub up : Ping
up = record { error = none; latency = "1ms" }

abbrev all_up : HealthResponse
all_up = (health postgres up up "1s" Tables.empty).0

health-status_example :
    (all_up.http_status ≡ 200 ↔ (up.error ≡ none) × (up.error ≡ none))
    × ((health postgres up up "1s" Tables.empty).1.tables ≡ Tables.empty.tables)
    × (postgres.fault 0 ≡ none
        → (all_up.checks.outbox.status ≡ "critical" ↔ 1000 < waiting Tables.empty.tables.outbox)
          × (all_up.checks.outbox.status ≡ "ok" ↔ waiting Tables.empty.tables.outbox ≤ 100))
health-status_example = health-status postgres up up "1s" Tables.empty
