-- ===== src/Metrics.antt =====
-- internal/infra/observability/metrics.go: the instruments, each with what was recorded, the last
-- first. How OpenTelemetry sums it up and exports it is left out.
use ledger_engine.Prelude.{ℕ, String, Option, none, some, List, [], ◌∷◌}
use ledger_engine.Errors.{Error, Result, ok, err}

pub data Attribute : Type 0 where
  text : String → Attribute
  number : ℕ → Attribute

pub record Measurement : Type 0 where
  pub value : ℕ
  pub attributes : List (String × Attribute)

-- What is measured under a name, and what was.
pub record Instrument : Type 0 where
  pub name : String
  pub recorded : List Measurement

abbrev instrument : String → Instrument
instrument name = record { name = name; recorded = [] }

abbrev noted : Measurement → Instrument → Instrument
noted m i = record i { recorded = m ∷ i.recorded }

pub record Metrics : Type 0 where
  pub request_duration : Instrument
  pub request_count : Instrument
  pub active_accounts : Instrument
  pub transaction_amount : Instrument
  pub transfers_by_state : Instrument
  pub outbox_pending : Instrument
  pub outbox_published : Instrument

-- `exporter` is the error of prometheus.New, if it has one. The errors of the instruments are dropped.
unfoldable pub setup_metrics : Option Error → Result Metrics
setup_metrics (some e) = err e
setup_metrics none = ok (record {
  request_duration = instrument "http_request_duration_seconds";
  request_count = instrument "http_requests_total";
  active_accounts = instrument "ledger_active_accounts";
  transaction_amount = instrument "ledger_transaction_amount_cents_total";
  transfers_by_state = instrument "ledger_transfers_total";
  outbox_pending = instrument "outbox_pending_events";
  outbox_published = instrument "outbox_published_total";
})

abbrev pub request_attributes : String → String → ℕ → List (String × Attribute)
request_attributes method path status =
    ("method", text method) ∷ ("path", text path) ∷ ("status", number status) ∷ []

-- A duration is its nanoseconds.
unfoldable pub record_request : String → String → ℕ → ℕ → Metrics → Metrics
record_request method path status duration m =
    let attributes = request_attributes method path status in
    record m {
      request_duration =
          noted (record { value = duration; attributes = attributes }) m.request_duration;
      request_count = noted (record { value = 1; attributes = attributes }) m.request_count;
    }

unfoldable pub record_transfer : String → Metrics → Metrics
record_transfer state m = record m {
  transfers_by_state =
      noted (record { value = 1; attributes = ("state", text state) ∷ [] }) m.transfers_by_state;
}
