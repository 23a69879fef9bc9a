-- ===== src/Lib.antt =====
-- The ledger engine: a double-entry ledger with accounts, transactions, and transfers that run as
-- a saga. A development about its Go code.
--
-- The parts, and where they are modelled
--
-- - internal/domain/ledger: Ledger. `Money` with its int64 amount (Ledger/Money), the three UUID
--   identifiers (Ledger/Identifiers), `Entry` (Ledger/Entry), the domain events and the ports of the
--   event store (Ledger/Event), and `NewTransaction` as `new_transaction` (Ledger/Transaction), whose
--   checks are Ledger/Transaction/Checks. Ledger/Transaction/Spec says what they are to decide.
-- - internal/domain/account: Account. Credit, Debit, Suspend, Reactivate, Close and Reconstitute are
--   functions on the record `Account`, which return a new account as the Go methods do.
-- - internal/domain/transfer: Transfer. The methods of *Transfer are state passing on the record.
-- - internal/app: App. Commands and the fields of LedgerService (App/Commands, App/Ports), the
--   methods of LedgerService (App/Service) and TransferService.Execute (App/Transfers). Both services
--   are written over the ports, which are records of operations on a state that is left open; the
--   monad is in Exec. App/Contract and App/Contract/Listing say what the services rely on of the
--   ports.
--   App/OutboxWorker is a poll of the worker (outbox_worker.go) over the tables and a broker;
--   App/OutboxWorker/Log is the broker of internal/infra/publisher.
-- - internal/infra/postgres: Postgres. The tables of migrations (Postgres/Tables), what the server
--   answers (Postgres/Server), and EventStore, SnapshotStore, OutboxWriter and AccountRepository
--   (Postgres/EventStore, Postgres/Outbox, Postgres/Accounts).
-- - internal/projection: Projection. The projector on the tables of the read model, the queries
--   (Projection/Queries), and what these return (Projection/Views).
-- - internal/infra/redis: Redis. The idempotency store over a server with expirations.
-- - internal/infra/http: Http. The handlers (Http/Handlers, their requests Http/Handlers/Json, the
--   API routes Http/Handlers/Rejecting), the idempotency middleware (Http/Idempotency; with
--   requests at the same time, Http/Idempotency/Concurrent), the metrics middleware (Http/Metrics)
--   and NewRouter (Http/Router).
-- - internal/infra/observability: Health is health.go, Metrics is metrics.go.
-- - internal/infra/inmemory: InMemory. The two repositories over Go maps; InMemory/Store fills
--   that contract with them, and InMemory/Store/Listing what is assumed of FindAll. Tests run the
--   services over them.
-- - cmd/api: Program. `config` and `boot` are what main does before it listens, `service` and `router`
--   what it wires, and `run` is the process: requests and ticks of the outbox worker, one after another.
--
-- How they interact: Execute calls RecordTransaction for each leg, through a suspense account that it
-- looks up and opens if need be; RecordTransaction calls NewTransaction, then Debit or Credit of each
-- account and Save of the repositories, and hands an event to the outbox or the event store, and to
-- the projector. The outbox worker reads the table that AppendWithOutbox fills, and hands its entries
-- to the broker. The handlers call the services and the queries, behind the idempotency middleware.
--
-- How the code is read
--
-- - An int64 is its two's complement pattern, a number below 2 ^ 64; sums and differences wrap
--   (Prelude/Int64). A negative amount is a pattern from 2 ^ 63 on.
-- - The string types EntryType, AccountType and Status are data types of their constants with
--   `other` for any other text.
-- - An error is a value of Errors, wrapped as fmt.Errorf does; a nil error is success. A method that
--   returns a zero value with its error returns the error alone.
-- - time.Now and uuid.NewV7 draw from the state (Environment). The time of Debit and Credit is drawn
--   before their checks, also when they refuse, since they are functions of it; no other state
--   depends on that. UTC is left out, a time being a number.
-- - Package google/uuid and json.Marshal are parameters. Of the first it is assumed that what is
--   printed is read back.
-- - The contexts are left out: no method of these packages reads them.
-- - The in-memory repositories hold their mutex through each method, which is one step. Accounts and
--   transactions are values in Go too, so what FindByID returns is not shared with the map. The order
--   in which a map is iterated is a parameter, some permutation of its values.
-- - The loops are recursions on their lists, and the ticks of the outbox worker a number of polls;
--   there is no fuel.
-- - An SQL statement is a function on the tables, which are lists of rows. Each call of pgx may be
--   answered with an error, by a parameter that gives the answer to the n-th call; then the call had no
--   effect. That a call took effect though its error was reported, or a commit did, is left out. A
--   transaction is serial: its body runs on the tables alone, and an error of it restores them. A row
--   that stands ahead of another of the same key in the table does so in the result too. JSONB,
--   TIMESTAMPTZ and the collation of text are parameters. A BIGSERIAL id is a number without a bound,
--   and a sum of BIGINT values out of range is an error.
-- - A Redis command is a function on the items, each with its time of expiration, with answers as
--   above; a pipeline runs its commands one by one, and in Http/Idempotency/Concurrent those of
--   other requests may come between. The response of a handler is written as a whole.
-- - A handler that panics has no response; the middleware that recovers from that is chi's. Which
--   route a request takes, its pattern, and the answer where there is none, are parameters. A request
--   that the idempotency middleware answers is not routed and has no pattern.
--   encoding/json and the product of a float64 with 100 are parameters of the handlers.
-- - An instrument is the list of what was recorded with it; a duration is its nanoseconds.
-- - In `run` a request or a tick is done before the next one begins. Finer interleavings of the
--   statements of two requests are left out there; App/OutboxWorker/Delivery has them for the outbox,
--   and Http/Idempotency/Concurrent for the calls of the idempotency middleware.
--
-- What is not modelled: logging, the export of the metrics, the middlewares of chi, the file server
-- with the files of web, and the shutdown in cmd/api.
--
-- What is assumed of the ports: the results of App/Service and App/Transfers hold for repositories
-- that fulfil the contract of the services (App/Contract). There is a view of the stored accounts; an
-- account that FindByID returns is the one in the view, Save puts the account into the view as it is
-- given, or leaves the view where it fails, and the other calls, those of the event store, the outbox
-- and the projector included, leave it. Where a system account is looked up, an account that FindAll
-- lists is one of its name in the view, under a property of the state that every call keeps
-- (App/Contract/Listing). The in-memory repositories fulfil both. The repository over PostgreSQL,
-- which cmd/api wires, does not: a column of type timestamptz rounds the times of an account, so an
-- account is not stored as it is given. What RecordTransaction does there is in Program/Sync. That the
-- lookups of system accounts find there what was opened is not shown. App/Invariants assumes of the
-- ports what it shows of the services.
mod Prelude
mod Errors
mod Exec
mod Environment
pub mod Ledger
pub mod Account
pub mod Transfer
pub mod App
pub mod InMemory
pub mod Postgres
pub mod Program
pub mod Projection
pub mod Redis
pub mod Http
pub mod Health
pub mod Metrics
mod Tests
