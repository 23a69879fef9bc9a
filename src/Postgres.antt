-- ===== src/Postgres.antt =====
-- internal/infra/postgres: the adapters over PostgreSQL. Their SQL statements are functions on the
-- tables of the migrations; the server's answers are parameters.
pub mod Tables
pub mod Server
pub mod EventStore
pub mod Outbox
pub mod Accounts
