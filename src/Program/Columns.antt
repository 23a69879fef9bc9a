-- ===== src/Program/Columns.antt =====
-- RecordTransaction over PostgreSQL: the column `balance` of the accounts, and the tables of the read
-- model, which the loop over the entries leaves alone.
use ledger_engine.Prelude.{
  ◌≡◌, refl, sym, ap, ◌∙◌, inl, inr, Bool-cases, Option-cases, str_eq, eq_iff, String, Option, none,
  some, List, arith, ◌+◌, if◌then◌else◌,
}
use ledger_engine.Prelude.Int64.{Int64, IsInt64, add64, add64-zero}
use ledger_engine.Environment.{Time, UuidLib}
use ledger_engine.Errors.{Result, ok, err}
use ledger_engine.Exec.{Exec}
use ledger_engine.Exec.Rules.{Outcome}
use ledger_engine.Ledger.Identifiers.{AccountId, equals, account_id_string}
use ledger_engine.Ledger.Entry.{EntryParams, Entry}
use ledger_engine.Account.{Account}
use ledger_engine.App.Contract.Effects.{signed, net}
use ledger_engine.App.Service.Params.{apply_entry}
use ledger_engine.App.Service.Recording.Entries.{Applied, apply_entry-Applied}
use ledger_engine.Postgres.Tables.{AccountRow, Tables, Db}
use ledger_engine.Postgres.Server.{Server, call}
use ledger_engine.Postgres.Accounts.{upsert_account, account_row, save, find_row, find_by_id}
use ledger_engine.Postgres.Accounts.Balances.{
  balance_of, AreWide, balance_of-upsert_account, FoundIn,
}
use ledger_engine.Program.{Process, on_db}

-- A balance, if there is one, moved by `n`.
abbrev pub shift : Int64 → Option Int64 → Option Int64
shift n none = none
shift n (some b) = some (add64 b n)

pub record SameReadModel (t t' : Tables) : Type 0 where
  pub balances : t'.account_balances ≡ t.account_balances
  pub history : t'.transaction_history ≡ t.transaction_history

pub same_read_model : (t t' : Tables) → t' ≡ t → SameReadModel t t'
same_read_model t t' e = rw e (record { balances = refl; history = refl })

pub SameReadModel-trans :
    (t t₁ t' : Tables) → SameReadModel t t₁ → SameReadModel t₁ t' → SameReadModel t t'
SameReadModel-trans t t₁ t' p q = record {
  balances = q.balances ∙ p.balances;
  history = q.history ∙ p.history;
}

pub on_db-Outcome {ℓ} :
    {A : Type 0} (Q : A → Db → Type ℓ) (E : Db → Type ℓ) (m : Exec Db A) (s : Process)
    → Outcome Q E (m s.db)
    → Outcome (λ a s'. Q a s'.db) (λ s'. E s'.db) (on_db m s)
on_db-Outcome {A} Q E m s h = of_result (m s.db) h
  where
    of_result :
        (r : Result A × Db)
        → Outcome Q E r
        → Outcome (λ a s'. Q a s'.db) (λ s'. E s'.db) (r.0, record s { db = r.1 })
    of_result (ok a, db) h = h
    of_result (err e, db) h = h

-- Different ids are written as different texts.
pub text_equals :
    (u : UuidLib) (i j : AccountId)
    → str_eq (account_id_string u i) (account_id_string u j) ≡ equals i j
text_equals u i j = ground (
  arith,
  eq_iff (account_id_string u i) (account_id_string u j),
  u.parse-to_string i.value,
  u.parse-to_string j.value,
  ap u.parse {x = account_id_string u i} {y = account_id_string u j},
  ap u.to_string {x = i.value} {y = j.value},
)

pub shift-zero : (o : Option Int64) → ((b : Int64) → o ≡ some b → IsInt64 b) → shift 0 o ≡ o
shift-zero none wide = refl
shift-zero (some b) wide = ap some (add64-zero b (wide b refl))

module _ (pg : Server) (u : UuidLib) where
  pub find_by_id-Outcome :
      (id : AccountId) (db : Db)
      → Outcome
          (λ a db'. (find_row pg u id db.tables.accounts ≡ ok a) × (db'.tables ≡ db.tables))
          (λ db'. db'.tables ≡ db.tables)
          (find_by_id pg u id db)
  unfolding find_by_id call
  find_by_id-Outcome id db = elim (Option-cases (pg.fault db.calls)) [
    | inr (f, down) ↦ rw down refl
    | inl up ↦ rw up (of_row (find_row pg u id db.tables.accounts) refl)
  ]
    where
      of_row :
          (r : Result Account)
          → find_row pg u id db.tables.accounts ≡ r
          → Outcome
              (λ a db'. (find_row pg u id db.tables.accounts ≡ ok a) × (db'.tables ≡ db.tables))
              (λ db'. db'.tables ≡ db.tables)
              (r, record db { calls = db.calls + 1 })
      of_row (ok a) e = (e, refl)
      of_row (err x) e = refl

  pub save-Outcome :
      (a : Account) (db : Db)
      → Outcome
          (λ _ db'. db'.tables ≡ record db.tables {
            accounts = upsert_account (account_row pg u a) db.tables.accounts;
          })
          (λ db'. db'.tables ≡ db.tables)
          (save pg u a db)
  unfolding save call
  save-Outcome a db = elim (Option-cases (pg.fault db.calls)) [
    | inr (f, down) ↦ rw down refl
    | inl up ↦ rw up refl
  ]

  -- What entries have made of the tables: each balance moved by the net of the entries on it.
  pub record Posted (ps : List EntryParams) (t t' : Tables) : Type 0 where
    pub read : SameReadModel t t'
    pub wide : AreWide t'.accounts
    pub moved :
        (j : AccountId)
        → balance_of (account_id_string u j) t'.accounts
          ≡ shift (net j ps) (balance_of (account_id_string u j) t.accounts)

  -- One entry.
  pub record Entered (e : Entry) (t t' : Tables) : Type 0 where
    pub read : SameReadModel t t'
    pub wide : AreWide t'.accounts
    pub moved :
        (j : AccountId)
        → balance_of (account_id_string u j) t'.accounts
          ≡ shift
              (if equals e.account_id j then signed e.type e.amount.amount else 0)
              (balance_of (account_id_string u j) t.accounts)

  saved_balance :
      (e : Entry) (b : Account) (rows : List AccountRow)
      → b.id ≡ e.account_id
      → (account : String)
      → balance_of account (upsert_account (account_row pg u b) rows) ≡ (
          if str_eq (account_id_string u e.account_id) account
          then some b.balance.amount
          else balance_of account rows)
  saved_balance e b rows same account =
      balance_of-upsert_account account (account_row pg u b) rows
      ∙ ap
          (λ (i : AccountId).
            if str_eq (account_id_string u i) account
            then some b.balance.amount
            else balance_of account rows)
          same

  saved-wide :
      (e : Entry) (b : Account) (rows : List AccountRow)
      → b.id ≡ e.account_id
      → IsInt64 b.balance.amount
      → AreWide rows
      → AreWide (upsert_account (account_row pg u b) rows)
  saved-wide e b rows same small wide account x p =
      elim (Bool-cases (str_eq (account_id_string u e.account_id) account)) [
        | inl here ↦
            let q : some b.balance.amount ≡ some x =
              rw (saved_balance e b rows same account, here) at p in
            ground (arith, small, q)
        | inr other ↦ wide account x (rw (saved_balance e b rows same account, other) at p)
      ]

  saved-moved :
      (e : Entry) (a b : Account) (rows : List AccountRow)
      → Applied e a b
      → b.id ≡ e.account_id
      → AreWide rows
      → balance_of (account_id_string u e.account_id) rows ≡ some a.balance.amount
      → (j : AccountId)
      → balance_of (account_id_string u j) (upsert_account (account_row pg u b) rows)
        ≡ shift
            (if equals e.account_id j then signed e.type e.amount.amount else 0)
            (balance_of (account_id_string u j) rows)
  saved-moved e a b rows applied same wide was j =
      let after = saved_balance e b rows same (account_id_string u j) in
      elim (Bool-cases (equals e.account_id j)) [
        | inl here ↦
            let at_j : e.account_id ≡ j = ground arith in
            let was_j =
              ap (λ (i : AccountId). balance_of (account_id_string u i) rows) (sym at_j) ∙ was in
            rw (after, text_equals u e.account_id j, here, was_j) (ap some applied.moved)
        | inr elsewhere ↦
            rw (after, text_equals u e.account_id j, elsewhere)
              (sym (
                shift-zero (balance_of (account_id_string u j) rows)
                  (wide (account_id_string u j))))
      ]

  pub saved-Entered :
      (e : Entry) (now : Time) (a b : Account) (t t' : Tables)
      → AreWide t.accounts
      → FoundIn pg u e.account_id t.accounts a
      → apply_entry now a e ≡ ok b
      → t' ≡ record t { accounts = upsert_account (account_row pg u b) t.accounts }
      → Entered e t t'
  saved-Entered e now a b t t' wide found applied written =
      let did = apply_entry-Applied now a b e found.valid applied in
      let same = did.same.id ∙ found.id in
      rw written (record {
        read = record { balances = refl; history = refl };
        wide = saved-wide e b t.accounts same did.valid.in_range wide;
        moved = saved-moved e a b t.accounts did same wide found.balance;
      })
