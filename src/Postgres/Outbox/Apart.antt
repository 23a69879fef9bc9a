-- ===== src/Postgres/Outbox/Apart.antt =====
-- The statements that leave the tables of events and of the outbox alone, whether they succeed or
-- fail.
use ledger_engine.Prelude.{ℕ, ◌≡◌, inl, inr, Bool-cases, String, Option, none, some, List, [], ◌∷◌}
use ledger_engine.Prelude.Int64.{Int64, is_negative}
use ledger_engine.Prelude.Rows.{order_by}
use ledger_engine.Environment.{Time, UuidLib}
use ledger_engine.Errors.{Result, ok, err}
use ledger_engine.Exec.Keeping.{Keeps, continue-Keeps, prefixed-Keeps, call-Keeps}
use ledger_engine.Ledger.Identifiers.{AccountId}
use ledger_engine.Ledger.Event.{AccountOpenedEvent, EntryEventData, TransactionRecordedEvent}
use ledger_engine.Account.{Account}
use ledger_engine.Postgres.Tables.{AccountRow, BalanceRow, Db}
use ledger_engine.Postgres.Server.{Server, call, transaction-keeps}
use ledger_engine.Postgres.Accounts.{save, find_by_id, find_all, read_accounts, reconstitute_all}
use ledger_engine.Projection.{
  updated, scanned, balance_at, update_all, project_account_opened, update_balance, select_balance,
  insert_history, project_entry, project_entries, project_transaction_recorded,
}
use ledger_engine.Projection.Queries.{
  get_account_balance, list_accounts, get_transaction_history, page_of,
}
use ledger_engine.Health.{check_outbox_backlog, counted}

-- The events, the outbox and its sequence are those of `start`.
pub record Apart (start db : Db) : Type 0 where
  pub events : db.tables.events ≡ start.tables.events
  pub outbox : db.tables.outbox ≡ start.tables.outbox
  pub sequence : db.next_outbox ≡ start.next_outbox

module _ (pg : Server) (start : Db) where
  called : (db : Db) → Apart start db → Apart start (call pg db).1
  unfolding call
  called db h = record { events = h.events; outbox = h.outbox; sequence = h.sequence }

  updated-Apart : (rows : Option (List BalanceRow)) → Keeps (Apart start) (updated rows)
  updated-Apart none db h = h
  updated-Apart (some rows) db h = record {
    events = h.events;
    outbox = h.outbox;
    sequence = h.sequence;
  }

  scanned-Apart : (balance : Option Int64) → Keeps (Apart start) (scanned balance)
  scanned-Apart none db h = h
  scanned-Apart (some balance) db h = h

  pub save-Apart : (u : UuidLib) (a : Account) → Keeps (Apart start) (save pg u a)
  unfolding save
  save-Apart u a db h =
      continue-Keeps (Apart start) (call pg db) _ (called db h)
        (λ _ s k. record { events = k.events; outbox = k.outbox; sequence = k.sequence })

  pub find_by_id-Apart : (u : UuidLib) (id : AccountId) → Keeps (Apart start) (find_by_id pg u id)
  unfolding find_by_id
  find_by_id-Apart u id db h =
      call-Keeps (Apart start) "query account" (call pg db) _ (called db h) (λ _ s k. k)

  read_accounts-Apart :
      (u : UuidLib) (r : Result (List Account)) → Keeps (Apart start) (read_accounts pg u r)
  read_accounts-Apart u (err e) db h = h
  read_accounts-Apart u (ok accounts) db h =
      continue-Keeps (Apart start) (call pg db) _ (called db h) (λ _ s k. k)

  pub find_all-Apart : (u : UuidLib) → Keeps (Apart start) (find_all pg u)
  unfolding find_all
  find_all-Apart u db h = continue-Keeps (Apart start) (call pg db) _ (called db h) (λ _ s k.
      read_accounts-Apart u
        (reconstitute_all pg u
          (order_by (λ (r r' : AccountRow). pg.collation r.name r'.name) s.tables.accounts))
        s k)

  pub project_account_opened-Apart :
      (event : AccountOpenedEvent) → Keeps (Apart start) (project_account_opened pg event)
  unfolding project_account_opened
  project_account_opened-Apart event db h = prefixed-Keeps (Apart start) _ _ (
      continue-Keeps (Apart start) (call pg db) _ (called db h)
        (λ _ s k. record { events = k.events; outbox = k.outbox; sequence = k.sequence }))

  update_balance-Apart :
      (timestamp : Time) (e : EntryEventData) → Keeps (Apart start) (update_balance pg timestamp e)
  unfolding update_balance
  update_balance-Apart timestamp e db h =
      continue-Keeps (Apart start) (call pg db) _ (called db h)
        (λ _ s k. updated-Apart (update_all _ _ e.account_id s.tables.account_balances) s k)

  select_balance-Apart : (account : String) → Keeps (Apart start) (select_balance pg account)
  unfolding select_balance
  select_balance-Apart account db h =
      continue-Keeps (Apart start) (call pg db) _ (called db h)
        (λ _ s k. scanned-Apart (balance_at account s.tables.account_balances) s k)

  insert_history-Apart :
      (event : TransactionRecordedEvent) (e : EntryEventData) (balance : Int64)
      → Keeps (Apart start) (insert_history pg event e balance)
  unfolding insert_history
  insert_history-Apart event e balance db h =
      continue-Keeps (Apart start) (call pg db) _ (called db h)
        (λ _ s k. record { events = k.events; outbox = k.outbox; sequence = k.sequence })

  project_entry-Apart :
      (event : TransactionRecordedEvent) (e : EntryEventData)
      → Keeps (Apart start) (project_entry pg event e)
  unfolding project_entry
  project_entry-Apart event e db h =
      call-Keeps (Apart start) _ (update_balance pg event.timestamp e db) _
        (update_balance-Apart event.timestamp e db h)
        (λ _ s k.
          call-Keeps (Apart start) _ (select_balance pg e.account_id s) _
            (select_balance-Apart e.account_id s k)
            (λ balance s' k'.
              prefixed-Keeps (Apart start) _ (insert_history pg event e balance s')
                (insert_history-Apart event e balance s' k')))

  project_entries-Apart :
      (event : TransactionRecordedEvent) (es : List EntryEventData)
      → Keeps (Apart start) (project_entries pg event es)
  unfolding project_entries
  project_entries-Apart event [] db h = h
  project_entries-Apart event (e ∷ es) db h =
      continue-Keeps (Apart start) (project_entry pg event e db) _
        (project_entry-Apart event e db h) (λ _. project_entries-Apart event es)

  pub project_transaction_recorded-Apart :
      (event : TransactionRecordedEvent)
      → Keeps (Apart start) (project_transaction_recorded pg event)
  unfolding project_transaction_recorded
  project_transaction_recorded-Apart event db h =
      transaction-keeps pg (Apart start) _ db
        (λ s n k. record { events = k.events; outbox = k.outbox; sequence = k.sequence })
        (λ s k. record { events = h.events; outbox = h.outbox; sequence = k.sequence })
        (λ began s k. project_entries-Apart event event.entries s k) h

  pub get_account_balance-Apart :
      (account : String) → Keeps (Apart start) (get_account_balance pg account)
  unfolding get_account_balance
  get_account_balance-Apart account db h =
      call-Keeps (Apart start) _ (call pg db) _ (called db h) (λ _ s k. k)

  pub list_accounts-Apart : Keeps (Apart start) (list_accounts pg)
  unfolding list_accounts
  list_accounts-Apart db h =
      call-Keeps (Apart start) _ (call pg db) _ (called db h)
        (λ _ s k. continue-Keeps (Apart start) (call pg s) _ (called s k) (λ _ s' k'. k'))

  page_of-Apart :
      (account : String) (limit offset : Int64)
      → Keeps (Apart start) (page_of pg account limit offset)
  page_of-Apart account limit offset db h = elim (Bool-cases (is_negative offset)) [
    | inl negative ↦ rw negative h
    | inr other ↦ rw other h
  ]

  pub get_transaction_history-Apart :
      (account : String) (limit offset : Int64)
      → Keeps (Apart start) (get_transaction_history pg account limit offset)
  unfolding get_transaction_history
  get_transaction_history-Apart account limit offset db h =
      call-Keeps (Apart start) _ (call pg db) _ (called db h) (λ _ s k.
        continue-Keeps (Apart start) (call pg s) _ (called s k)
          (λ _. page_of-Apart account _ offset))

  pub check_outbox_backlog-Apart :
      (db : Db) → Apart start db → Apart start (check_outbox_backlog pg db).1
  unfolding check_outbox_backlog
  check_outbox_backlog-Apart db h =
      of_count _ (continue-Keeps (Apart start) (call pg db) _ (called db h) (λ _ s k. k))
    where
      of_count : (r : Result ℕ × Db) → Apart start r.1 → Apart start (counted r).1
      of_count (ok n, s) k = k
      of_count (err e, s) k = k
