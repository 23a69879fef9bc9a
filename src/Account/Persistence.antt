-- ===== src/Account/Persistence.antt =====
-- Reconstitute of internal/domain/account/account.go against the columns that a repository writes.
use ledger_engine.Prelude.{String, ◌≡◌, ap, arith, eq_iff}
use ledger_engine.Prelude.Int64.{Int64, IsInt64}
use ledger_engine.Environment.{Time, UuidLib}
use ledger_engine.Errors.{ok}
use ledger_engine.Ledger.Money.{new_money}
use ledger_engine.Ledger.Identifiers.{account_id_string, new_account_id}
use ledger_engine.Account.{
  Account, account_type, account_type_string, status_of, status_string, reconstitute,
}
use ledger_engine.Account.Spec.{IsValid}

-- The type and the status are read back from their text. So is every one that was read from a
-- text; only an `other` that holds one of the three known words is not.
pub record IsWritten (a : Account) : Type 0 where
  pub type_text : account_type (account_type_string a.type) ≡ a.type
  pub status_text : status_of (status_string a.status) ≡ a.status

account_type_string-account_type : (s : String) → account_type_string (account_type s) ≡ s
unfolding account_type account_type_string
account_type_string-account_type s =
    ground (arith, eq_iff s "ASSET", eq_iff s "LIABILITY", eq_iff s "EQUITY")

status_string-status_of : (s : String) → status_string (status_of s) ≡ s
unfolding status_of status_string
status_string-status_of s =
    ground (arith, eq_iff s "ACTIVE", eq_iff s "SUSPENDED", eq_iff s "CLOSED")

-- Reading back the columns that were written gives the account.
module _ (u : UuidLib) where
  -- For a valid account whose type and status are read back from their text, Reconstitute of the
  -- columns of the account returns the account.
  pub reconstitute-columns :
      (a : Account)
      → IsValid a
      → IsWritten a
      → reconstitute u
          (account_id_string u a.id)
          a.name
          (account_type_string a.type)
          a.currency
          a.balance.amount
          (status_string a.status)
          a.created_at
          a.updated_at
        ≡ ok a
  unfolding reconstitute new_money new_account_id
  reconstitute-columns a v w =
      rw (u.parse-to_string a.id.value, w.type_text, w.status_text) (ground arith)

  -- An account that Reconstitute returns, from any texts and any 64-bit balance, is valid, and its
  -- type and status are read back from their text.
  pub reconstitute-IsValid :
      (id name type currency : String) (balance : Int64) (status : String) (t t' : Time)
      (a : Account)
      → IsInt64 balance
      → reconstitute u id name type currency balance status t t' ≡ ok a
      → IsValid a × IsWritten a
  unfolding reconstitute new_money new_account_id
  reconstitute-IsValid id name type currency balance status t t' a h e = ground (
    arith,
    u.parse id,
    account_type_string-account_type type,
    status_string-status_of status,
    ap account_type (account_type_string-account_type type),
    ap status_of (status_string-status_of status),
  )
