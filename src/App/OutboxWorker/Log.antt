-- ===== src/App/OutboxWorker/Log.antt =====
-- internal/infra/publisher/log_publisher.go: a broker that prints what it is given.
use ledger_engine.Prelude.{List, ◌∷◌, inl, inr, refl}
use ledger_engine.Prelude.Rows.{In}
use ledger_engine.Errors.{ok}
use ledger_engine.App.OutboxWorker.{EventPublisher}
use ledger_engine.App.OutboxWorker.Delivery.{Message, IsBroker}

-- Its state is the log, the last line first.
abbrev pub log_publisher : EventPublisher (List Message)
log_publisher = record {
  publish = λ type aggregate payload log.
      (ok tt, record { event_type = type; aggregate_id = aggregate; payload = payload } ∷ log);
}

-- A message is delivered if it was printed.
abbrev pub log_broker : IsBroker log_publisher
log_broker = record {
  delivered = λ log m. In m log;
  delivers = λ m log taken. inl refl;
  remembers = λ m n log printed. inr printed;
}
