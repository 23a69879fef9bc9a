-- ===== src/Tests/Accounts.antt =====
-- Accounts: the theorems about them at concrete arguments.
use ledger_engine.Prelude.{◌≡◌, ◌≢◌, ◌≤◌, ◌+◌, ◌↔◌, ◌⊎◌, refl, true, false, List, [], ◌∷◌, arith}
use ledger_engine.Prelude.Int64.{Int64, add64, sub64, neg64, is_negative}
use ledger_engine.Environment.{Time}
use ledger_engine.Errors.{ok}
use ledger_engine.Ledger.Money
use ledger_engine.Ledger.Money.{Money, is_valid_currency, new_money}
use ledger_engine.Ledger.Identifiers.{account_id_string, new_account_id}
use ledger_engine.Account
use ledger_engine.Account.{
  Account, account_type, account_type_string, asset, active, closed, status_of, status_string,
  allows_negative_balance, new_account_with_type, reconstitute,
}
use ledger_engine.Account.Spec.{Operation, apply, run, CanMove, credited, debited}
use ledger_engine.Account.Balance.{credit_iff, debit_iff, credit_negative_overdraws}
use ledger_engine.Account.Invariant.{total_inflow, run_nonneg}
use ledger_engine.Account.Lifecycle.{Change, apply-Change, run_closed}
use ledger_engine.Account.Persistence.{IsWritten, reconstitute-columns}
use ledger_engine.Tests.{uuids, alice, alice-IsValid}

abbrev usd : Int64 → Money
usd n = record { amount = n; currency = "USD" }

alice-CanMove : (n : Int64) → n ≢ 0 → CanMove alice (usd n)
alice-CanMove n h = record { is_active = refl; nonzero = h; same_currency = refl }

debit_iff_example : (Account.debit 5 alice (usd 300) ≡ ok (debited 5 alice (usd 300))) ↔ (
    CanMove alice (usd 300)
    × ((allows_negative_balance alice ≡ true) ⊎ (is_negative (sub64 1000 300) ≡ false))
    × (debited 5 alice (usd 300) ≡ debited 5 alice (usd 300)))
debit_iff_example = debit_iff 5 alice (debited 5 alice (usd 300)) (usd 300) alice-IsValid

credit_iff_example :
    (Account.credit 5 alice (usd 300) ≡ ok (credited 5 alice (usd 300)))
    ↔ (CanMove alice (usd 300) × (credited 5 alice (usd 300) ≡ credited 5 alice (usd 300)))
credit_iff_example = credit_iff 5 alice (credited 5 alice (usd 300)) (usd 300) alice-IsValid

debit_run : Account.debit 5 alice (usd 300) ≡ ok (debited 5 alice (usd 300))
unfolding Account.debit Money.subtract sub64
debit_run = refl

credit_run : Account.credit 5 alice (usd 300) ≡ ok (credited 5 alice (usd 300))
unfolding Account.credit Money.add add64
credit_run = refl

negative_amount : neg64 3000 ≢ 0
unfolding neg64 sub64
negative_amount = omega arith

credit_negative_overdraws_example :
    (Account.credit 5 alice (usd (neg64 3000)) ≡ ok (credited 5 alice (usd (neg64 3000))))
    × (is_negative (credited 5 alice (usd (neg64 3000))).balance.amount ≡ true)
credit_negative_overdraws_example =
    credit_negative_overdraws 5 alice 3000 (usd (neg64 3000)) alice-IsValid
      (alice-CanMove (neg64 3000) negative_amount) refl (omega arith) (omega arith) refl

abbrev busy : List (Time × Operation)
busy =
    (5, Operation.credit (usd 300))
    ∷ (6, Operation.suspend)
    ∷ (7, Operation.debit (usd 10))
    ∷ (8, Operation.close)
    ∷ []

run_nonneg_example :
    (is_negative (run busy alice).balance.amount ≡ false)
    × ((run busy alice).balance.amount ≤ alice.balance.amount + total_inflow busy)
run_nonneg_example =
    run_nonneg busy alice refl (omega arith, (tt, (omega arith, (tt, tt)))) (omega arith)

apply-Change_example : Change active (apply 6 Operation.suspend alice).status
apply-Change_example = apply-Change 6 Operation.suspend alice

abbrev gone : Account
gone = record alice { status = closed }

run_closed_example : run busy gone ≡ gone
run_closed_example = run_closed busy gone refl

alice-IsWritten : IsWritten alice
unfolding account_type account_type_string status_of status_string
alice-IsWritten = record { type_text = refl; status_text = refl }

reconstitute-columns_example :
    reconstitute uuids
      (account_id_string uuids alice.id)
      "Alice"
      (account_type_string asset)
      "USD"
      1000
      (status_string active)
      0
      0
    ≡ ok alice
reconstitute-columns_example = reconstitute-columns uuids alice alice-IsValid alice-IsWritten

read_alice : reconstitute uuids "|" "Alice" "ASSET" "USD" 1000 "ACTIVE" 0 0 ≡ ok alice
unfolding reconstitute new_money new_account_id is_valid_currency account_type status_of
read_alice = refl
