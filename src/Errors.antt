-- ===== src/Errors.antt =====
-- Go's `error` values: the sentinels of each package, what an external library reports, and what
-- `fmt.Errorf` builds around a cause with `%w`. A fallible function returns a `Result`.
use ledger_engine.Prelude.{⊤, String, Bool, true, false, ◌≡◌, ◌⊎◌, inl, inr, refl, ◌<>◌}

pub data Error : Type 0 where
  -- internal/domain/ledger
  invalid_currency currency_mismatch invalid_id : Error
  no_entries insufficient_entries unbalanced_transaction zero_amount : Error
  -- internal/domain/account; `zero_operation_amount` is account.ErrZeroAmount
  empty_name insufficient_funds account_not_active zero_operation_amount : Error
  -- internal/domain/transfer
  same_account invalid_transition : Error
  -- internal/infra
  account_not_found transaction_not_found version_conflict : Error
  -- internal/projection, its ErrAccountNotFound
  account_view_not_found : Error
  -- an error that a driver or a library made, or one that is formatted without `%w`
  opaque_error : String → Error
  -- fmt.Errorf(prefix + ": %w", cause)
  wrap : String → Error → Error

-- err.Error()
unfoldable pub message : Error → String
message invalid_currency = "invalid currency"
message currency_mismatch = "cannot operate on different currencies"
message invalid_id = "invalid identifier: must be valid UUID"
message no_entries = "transaction requires at least one entry"
message insufficient_entries = "transaction requires at least two entries"
message unbalanced_transaction =
    "transaction is not balanced: total debits must equal total credits"
message zero_amount = "entry amount must not be zero"
message empty_name = "account name must not be empty"
message insufficient_funds = "insufficient funds"
message account_not_active = "account is not active"
message zero_operation_amount = "amount must not be zero"
message same_account = "cannot transfer to the same account"
message invalid_transition = "invalid saga state transition"
message account_not_found = "account not found"
message transaction_not_found = "transaction not found"
message version_conflict = "event version conflict: aggregate was modified concurrently"
message account_view_not_found = "account not found in read model"
message (opaque_error text) = text
message (wrap prefix cause) = prefix <> ": " <> message cause

pub data Result {ℓ} (A : Type ℓ) : Type ℓ where
  ok : A → Result A
  err : Error → Result A

-- The call chain of `if err != nil { return err }`: the rest of the method runs on a success alone.
module _ {ℓ κ} {A : Type ℓ} {B : Type κ} where
  infixl 5 ◌>>=◌ ◌>>◌
  abbrev pub ◌>>=◌ : Result A → (A → Result B) → Result B
  err failure >>= rest = err failure
  ok value >>= rest = rest value

  abbrev pub ◌>>◌ : Result A → Result B → Result B
  err failure >> rest = err failure
  ok _ >> rest = rest

-- if bad { return e }
abbrev pub fail_if : Bool → Error → Result ⊤
fail_if true e = err e
fail_if false e = ok tt

-- if err != nil { return fmt.Errorf(prefix + ": %w", err) }
abbrev pub with_prefix {ℓ} : {A : Type ℓ} → String → Result A → Result A
with_prefix prefix (ok a) = ok a
with_prefix prefix (err e) = err (wrap prefix e)

pub Result-cases {ℓ} :
    {A : Type ℓ} (r : Result A) → ((a : A) × (r ≡ ok a)) ⊎ ((e : Error) × (r ≡ err e))
Result-cases (ok a) = inl (a, refl)
Result-cases (err e) = inr (e, refl)
