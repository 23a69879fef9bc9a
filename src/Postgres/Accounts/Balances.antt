-- ===== src/Postgres/Accounts/Balances.antt =====
-- The column `balance` of the table accounts: what Save writes of it, and what FindByID reads.
use ledger_engine.Prelude.{
  ◌≡◌, refl, sym, inl, inr, ap, Bool-cases, str_eq, eq_iff, String, Option, none, some, List, [],
  ◌∷◌, arith, if◌then◌else◌,
}
use ledger_engine.Prelude.Int64.{Int64, IsInt64}
use ledger_engine.Environment.{Time, UuidLib}
use ledger_engine.Errors.{ok}
use ledger_engine.Ledger.Money.{new_money}
use ledger_engine.Ledger.Identifiers.{AccountId, account_id_string, new_account_id}
use ledger_engine.Account.{Account, reconstitute}
use ledger_engine.Account.Spec.{IsValid}
use ledger_engine.Account.Persistence.{reconstitute-IsValid}
use ledger_engine.Postgres.Tables.{AccountRow}
use ledger_engine.Postgres.Server.{Server}
use ledger_engine.Postgres.Accounts.{upsert_account, find_row}

-- The balance in the first row of an account.
abbrev pub balance_of : String → List AccountRow → Option Int64
balance_of account [] = none
balance_of account (r ∷ rows) =
    if str_eq r.account_id account then some r.balance else balance_of account rows

-- A BIGINT has 64 bits.
abbrev pub AreWide : List AccountRow → Type 0
AreWide rows = (account : String) (b : Int64) → balance_of account rows ≡ some b → IsInt64 b

pub balance_of-upsert_account :
    (account : String) (row : AccountRow) (rows : List AccountRow)
    → balance_of account (upsert_account row rows)
      ≡ (if str_eq row.account_id account then some row.balance else balance_of account rows)
unfolding upsert_account
balance_of-upsert_account account row [] = refl
balance_of-upsert_account account row (r ∷ rows) =
    elim (Bool-cases (str_eq r.account_id row.account_id)) [
      | inl same ↦ rw (same, (eq_iff r.account_id row.account_id).0 same) (ground (arith))
      | inr other ↦ rw other (
          ground (
            arith,
            eq_iff r.account_id account,
            eq_iff row.account_id account,
            eq_iff r.account_id row.account_id,
            balance_of-upsert_account account row rows,
          ))
    ]

module _ (pg : Server) (u : UuidLib) where
  -- What FindByID finds: the account asked for, with the balance of its row.
  pub record FoundIn (asked : AccountId) (rows : List AccountRow) (a : Account) : Type 0 where
    pub id : a.id ≡ asked
    pub valid : IsValid a
    pub balance : balance_of (account_id_string u asked) rows ≡ some a.balance.amount

  reconstitute-id :
      (id : AccountId) (name type currency : String) (balance : Int64) (status : String)
      (t t' : Time) (a : Account)
      → reconstitute u (account_id_string u id) name type currency balance status t t' ≡ ok a
      → (a.id ≡ id) × (a.balance.amount ≡ balance)
  unfolding reconstitute new_account_id new_money
  reconstitute-id id name type currency balance status t t' a e =
      ground (arith, rw (u.parse-to_string id.value) at e)

  row-FoundIn :
      (id : AccountId) (r : AccountRow) (a : Account)
      → r.account_id ≡ account_id_string u id
      → IsInt64 r.balance
      → reconstitute u r.account_id r.name r.account_type r.currency r.balance r.status r.created_at
          r.updated_at
        ≡ ok a
      → (a.id ≡ id) × IsValid a × (a.balance.amount ≡ r.balance)
  row-FoundIn id r a here wide e =
      let e' = rw here at e in
      let (same, amount) =
        reconstitute-id id r.name r.account_type r.currency r.balance r.status r.created_at
          r.updated_at a e' in
      (
        same,
        (reconstitute-IsValid u r.account_id r.name r.account_type r.currency r.balance r.status
            r.created_at r.updated_at a wide e).0,
        amount,
      )

  pub find_row-FoundIn :
      (id : AccountId) (rows : List AccountRow) (a : Account)
      → ((b : Int64) → balance_of (account_id_string u id) rows ≡ some b → IsInt64 b)
      → find_row pg u id rows ≡ ok a
      → FoundIn id rows a
  unfolding find_row
  find_row-FoundIn id [] a wide h = absurd (cc h)
  find_row-FoundIn id (r ∷ rows) a wide h =
      elim (Bool-cases (str_eq r.account_id (account_id_string u id))) [
        | inl here ↦
            let named = (eq_iff r.account_id (account_id_string u id)).0 here in
            let (same, valid, amount) =
              row-FoundIn id r a named (wide r.balance (rw here refl)) (rw here at h) in
            record { id = same; valid = valid; balance = rw here (ap some (sym amount)) }
        | inr other ↦
            let found = find_row-FoundIn id rows a (rw other at wide) (rw other at h) in
            record { id = found.id; valid = found.valid; balance = rw other found.balance }
      ]
