-- ===== src/Postgres/Accounts/Saving.antt =====
-- What Save writes, FindByID reads.
use ledger_engine.Prelude.{
  ◌≡◌, ◌≢◌, refl, inl, inr, Bool-cases, str_eq, eq_iff, eq_refl, none, List, [], ◌∷◌, arith, ◌+◌,
}
use ledger_engine.Prelude.Rows.{In}
use ledger_engine.Environment.{UuidLib}
use ledger_engine.Errors.{ok}
use ledger_engine.Ledger.Identifiers.{AccountId, account_id_string}
use ledger_engine.Account.{Account, account_type_string}
use ledger_engine.Account.Spec.{IsValid}
use ledger_engine.Account.Persistence.{IsWritten, reconstitute-columns}
use ledger_engine.Postgres.Tables.{AccountRow, Db}
use ledger_engine.Postgres.Server.{Server, call}
use ledger_engine.Postgres.Accounts.{upsert_account, account_row, save, find_row, find_by_id}

module _ (pg : Server) (u : UuidLib) where
  -- The columns that Save leaves as they are in a row that is there.
  pub record Agrees (a : Account) (r : AccountRow) : Type 0 where
    pub name : r.name ≡ a.name
    pub account_type : r.account_type ≡ account_type_string a.type
    pub currency : r.currency ≡ a.currency
    pub created_at : r.created_at ≡ pg.timestamptz a.created_at

  -- The row of the account, if it has one, agrees with it.
  abbrev pub AgreesIn : Account → List AccountRow → Type 0
  AgreesIn a rows =
      (r : AccountRow) → In r rows → r.account_id ≡ account_id_string u a.id → Agrees a r

  find_row-upsert_account :
      (a : Account) (rows : List AccountRow)
      → IsValid a
      → IsWritten a
      → pg.timestamptz a.created_at ≡ a.created_at
      → pg.timestamptz a.updated_at ≡ a.updated_at
      → AgreesIn a rows
      → find_row pg u a.id (upsert_account (account_row pg u a) rows) ≡ ok a
  unfolding find_row upsert_account
  find_row-upsert_account a [] v w c d agrees =
      rw (eq_refl (account_id_string u a.id), c, d) (reconstitute-columns u a v w)
  find_row-upsert_account a (r ∷ rows) v w c d agrees =
      elim (Bool-cases (str_eq r.account_id (account_id_string u a.id))) [
        | inl here ↦
            let same = (eq_iff r.account_id (account_id_string u a.id)).0 here in
            let g = agrees r (inl refl) same in
            rw (here, here, g.name, g.account_type, g.currency, g.created_at, same, c, d)
              (reconstitute-columns u a v w)
        | inr other ↦
            rw (other, other)
              (find_row-upsert_account a rows v w c d (λ x there. agrees x (inr there)))
      ]

  find_row-upsert_account_other :
      (id : AccountId) (row : AccountRow) (rows : List AccountRow)
      → row.account_id ≢ account_id_string u id
      → find_row pg u id (upsert_account row rows) ≡ find_row pg u id rows
  unfolding find_row upsert_account
  find_row-upsert_account_other id row [] h =
      ground (arith, h, eq_iff row.account_id (account_id_string u id))
  find_row-upsert_account_other id row (r ∷ rows) h = ground (
    arith,
    h,
    eq_iff row.account_id (account_id_string u id),
    eq_iff r.account_id row.account_id,
    find_row-upsert_account_other id row rows h,
  )

  -- If the server answers the two calls and keeps the account's times exactly, then for a valid
  -- account, whose type and status are read back from their text, and a table in which the
  -- account's row, if it has one, has its name, type, currency and time of creation: FindByID after
  -- Save returns the account, and under every other id the table holds what it held.
  pub find_by_id-save :
      (a : Account) (db : Db)
      → pg.fault db.calls ≡ none
      → pg.fault (db.calls + 1) ≡ none
      → IsValid a
      → IsWritten a
      → pg.timestamptz a.created_at ≡ a.created_at
      → pg.timestamptz a.updated_at ≡ a.updated_at
      → AgreesIn a db.tables.accounts
      → ((find_by_id pg u a.id (save pg u a db).1).0 ≡ ok a)
        × ((id : AccountId)
            → account_id_string u a.id ≢ account_id_string u id
            → find_row pg u id (save pg u a db).1.tables.accounts
              ≡ find_row pg u id db.tables.accounts)
  unfolding save find_by_id call
  find_by_id-save a db up up' v w c d agrees = (
    rw (up, up') (find_row-upsert_account a db.tables.accounts v w c d agrees),
    λ id other.
        rw up (find_row-upsert_account_other id (account_row pg u a) db.tables.accounts other),
  )
