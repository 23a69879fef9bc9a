-- ===== src/Ledger/Event.antt =====
-- internal/domain/ledger/events.go and event_store.go: domain events, and how they are stored. A
-- payload is the bytes that `json.Marshal` makes of an event.
use ledger_engine.Prelude.{str_eq, if◌then◌else◌, ⊤, ℕ, String, List}
use ledger_engine.Prelude.Int64.{Int64}
use ledger_engine.Environment.{Time}
use ledger_engine.Exec.{Exec}

pub data EventType : Type 0 where
  event_account_opened event_account_suspended event_account_reactivated : EventType
  event_account_closed event_transaction_recorded : EventType
  other_event : String → EventType

-- string(t)
unfoldable pub event_type_string : EventType → String
event_type_string event_account_opened = "account.opened"
event_type_string event_account_suspended = "account.suspended"
event_type_string event_account_reactivated = "account.reactivated"
event_type_string event_account_closed = "account.closed"
event_type_string event_transaction_recorded = "transaction.recorded"
event_type_string (other_event s) = s

-- EventType(s)
unfoldable pub event_type_of : String → EventType
event_type_of s =
    if str_eq s "account.opened"
    then event_account_opened
    else if str_eq s "account.suspended"
    then event_account_suspended
    else if str_eq s "account.reactivated"
    then event_account_reactivated
    else if str_eq s "account.closed"
    then event_account_closed
    else if str_eq s "transaction.recorded"
    then event_transaction_recorded
    else other_event s

pub record AccountOpenedEvent : Type 0 where
  pub id : String
  pub account_id : String
  pub name : String
  pub account_type : String
  pub currency : String
  pub timestamp : Time

pub record EntryEventData : Type 0 where
  pub entry_id : String
  pub account_id : String
  pub amount : Int64
  pub currency : String
  pub type : String

pub record TransactionRecordedEvent : Type 0 where
  pub id : String
  pub transaction_id : String
  pub entries : List EntryEventData
  pub description : String
  pub timestamp : Time

-- the types that implement the interface DomainEvent
pub data DomainEvent : Type 0 where
  account_opened : AccountOpenedEvent → DomainEvent
  transaction_recorded : TransactionRecordedEvent → DomainEvent

unfoldable pub event_type : DomainEvent → EventType
event_type (account_opened e) = event_account_opened
event_type (transaction_recorded e) = event_transaction_recorded

unfoldable pub aggregate_id : DomainEvent → String
aggregate_id (account_opened e) = e.account_id
aggregate_id (transaction_recorded e) = e.transaction_id

unfoldable pub occurred_at : DomainEvent → Time
occurred_at (account_opened e) = e.timestamp
occurred_at (transaction_recorded e) = e.timestamp

abbrev pub Payload : Type 0
Payload = List ℕ

pub record StoredEvent : Type 0 where
  pub id : String
  pub aggregate_id : String
  pub aggregate_type : String
  pub event_type : EventType
  pub version : Int64
  pub payload : Payload
  pub occurred_at : Time

pub record EventStore (S : Type 0) : Type 0 where
  pub append : String → String → Int64 → List StoredEvent → Exec S ⊤
  pub load_events : String → Exec S (List StoredEvent)
  pub load_events_from : String → Int64 → Exec S (List StoredEvent)

pub record Snapshot : Type 0 where
  pub aggregate_id : String
  pub version : Int64
  pub payload : Payload

pub record SnapshotStore (S : Type 0) : Type 0 where
  pub save : Snapshot → Exec S ⊤
  pub load : String → Exec S Snapshot
