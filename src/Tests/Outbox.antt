-- ===== src/Tests/Outbox.antt =====
-- The outbox and its worker: runs of the code, and instances of the theorems about it.
use ledger_engine.Prelude.{◌≡◌, ◌≤◌, ◌*◌, refl, inl, arith, List, [], ◌∷◌}
use ledger_engine.Prelude.Int64.{add64}
use ledger_engine.Prelude.Rows.{In, select}
use ledger_engine.Errors.{ok}
use ledger_engine.Exec.Rules.{Outcome}
use ledger_engine.Ledger.Event.{StoredEvent, event_account_opened, event_type_string}
use ledger_engine.Postgres.Tables.{EventRow, Db}
use ledger_engine.Postgres.Tables
use ledger_engine.Postgres.Server.{call}
use ledger_engine.Postgres.EventStore.{
  count_at, insert_event, append_events, append, load_events_from,
}
use ledger_engine.Postgres.EventStore.Loading.{AllRead, load_events_from-append}
use ledger_engine.Postgres.Outbox.{insert_outbox, append_both, append_with_outbox}
use ledger_engine.Postgres.Outbox.Appending.{Doubled, append_with_outbox-Outcome}
use ledger_engine.App.OutboxWorker.{Node, process_batch, polls}
use ledger_engine.App.OutboxWorker.Log.{log_publisher, log_broker}
use ledger_engine.App.OutboxWorker.Draining.{pending, polls-drain}
use ledger_engine.App.OutboxWorker.Delivery.{Message}
use ledger_engine.App.OutboxWorker.Delivery.Invariant.{IsSafe}
use ledger_engine.App.OutboxWorker.Delivery.Safety.{
  Reach, here, next, writing, polling, Reach-IsSafe,
}
use ledger_engine.App.OutboxWorker.Delivery.Eventual.{event_message, polls-deliver}
use ledger_engine.Tests.{postgres}

abbrev opened : StoredEvent
opened = record {
  id = "";
  aggregate_id = "|";
  aggregate_type = "account";
  event_type = event_account_opened;
  version = 1;
  payload = 123 ∷ 125 ∷ [];
  occurred_at = 7;
}

append_with_outbox-Outcome_example :
    Outcome
      (λ _ s'. Doubled postgres "|" "account" 0 0 (opened ∷ []) Tables.empty.tables s'.tables)
      (λ s'. s'.tables ≡ Tables.empty.tables)
      (append_with_outbox postgres "|" "account" 0 (opened ∷ []) Tables.empty)
append_with_outbox-Outcome_example =
    append_with_outbox-Outcome postgres "|" "account" 0 (opened ∷ []) Tables.empty

abbrev start : Node (List Message)
start = record { db = Tables.empty; broker = [] }

-- One account was opened, and nothing published yet.
abbrev written : Node (List Message)
written = record start {
  db = (append_with_outbox postgres "|" "account" 0 (opened ∷ []) start.db).1;
}

written-Reach : Reach postgres log_publisher log_broker start written
written-Reach = next here (writing "|" "account" 0 (opened ∷ []) refl)

Reach-IsSafe_example :
    IsSafe postgres log_publisher log_broker (process_batch postgres log_publisher written)
Reach-IsSafe_example =
    Reach-IsSafe postgres log_publisher log_broker [] (process_batch postgres log_publisher written)
      (next written-Reach (polling refl))

pending-written : pending written ≡ 1
unfolding append_with_outbox append_both insert_event insert_outbox count_at call select add64
    event_type_string
pending-written = refl

few : pending written ≤ 1 * 50
few = omega (arith, pending-written)

abbrev row : EventRow
row = record {
  id = 1;
  aggregate_id = "|";
  aggregate_type = "account";
  event_type = "account.opened";
  version = 1;
  payload = 123 ∷ 125 ∷ [];
  occurred_at = 7;
}

row-In : In row written.db.tables.events
unfolding append_with_outbox append_both insert_event insert_outbox count_at call add64
    event_type_string
row-In = inl refl

polls-drain_example : pending (polls postgres log_publisher 1 written) ≡ 0
polls-drain_example =
    polls-drain postgres log_publisher 0 (λ n h. refl) (λ type aggregate payload b. refl) 1 written
      (omega arith) few

polls-deliver_example : In (event_message row) (polls postgres log_publisher 1 written).broker
polls-deliver_example =
    polls-deliver postgres log_publisher log_broker 0 (λ n h. refl)
      (λ type aggregate payload b. refl) [] written 1 written-Reach (omega arith) few row row-In

-- The database after Append of one event.
abbrev stored_one : Db
stored_one = (append postgres "|" "account" 0 (opened ∷ []) Tables.empty).1

appended : append postgres "|" "account" 0 (opened ∷ []) Tables.empty ≡ (ok tt, stored_one)
unfolding append append_events insert_event count_at call add64 event_type_string
appended = refl

load_events_from-append_example :
    (read : List StoredEvent) × ((load_events_from postgres "|" 0 stored_one).0 ≡ ok read)
    × AllRead postgres "|" "account" 0 0 (opened ∷ []) read
load_events_from-append_example =
    load_events_from-append postgres "|" "account" 0 (opened ∷ []) Tables.empty stored_one appended
      (λ r inside. absurd inside) (omega arith) refl refl
