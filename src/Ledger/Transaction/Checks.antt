-- ===== src/Ledger/Transaction/Checks.antt =====
-- The validation of NewTransaction (internal/domain/ledger/transaction.go), in the source's order.
use ledger_engine.Prelude.{⊤, not, List, [], ◌∷◌, ◌==◌, str_eq, if◌then◌else◌}
use ledger_engine.Prelude.Int64.{Int64, add64}
use ledger_engine.Errors.{
  Result, ok, err, fail_if, no_entries, insufficient_entries, unbalanced_transaction, zero_amount,
  currency_mismatch, ◌>>◌,
}
use ledger_engine.Ledger.Money.{Currency, is_zero}
use ledger_engine.Ledger.Entry.{EntryType, debit, credit, other, EntryParams}

-- for _, p := range params { if p.Amount.IsZero() { return ErrZeroAmount } }
unfoldable pub check_amounts : List EntryParams → Result ⊤
check_amounts [] = ok tt
check_amounts (p ∷ ps) =
    let rest = check_amounts ps in if is_zero p.amount then err zero_amount else rest

-- for _, p := range params[1:] { if p.Amount.Currency() != currency { … } }
unfoldable pub check_currencies : Currency → List EntryParams → Result ⊤
check_currencies c [] = ok tt
check_currencies c (p ∷ ps) =
    let rest = check_currencies c ps in
    if not (str_eq p.amount.currency c) then err currency_mismatch else rest

-- the `switch` of the summing loop, on totalDebits and totalCredits
unfoldable pub add_to_totals : EntryType → Int64 → Int64 × Int64 → Int64 × Int64
add_to_totals debit amount (debits, credits) = (add64 debits amount, credits)
add_to_totals credit amount (debits, credits) = (debits, add64 credits amount)
add_to_totals (other _) amount totals = totals

unfoldable pub sum_entries : Int64 × Int64 → List EntryParams → Int64 × Int64
sum_entries totals [] = totals
sum_entries totals (p ∷ ps) = sum_entries (add_to_totals p.type p.amount.amount totals) ps

unfoldable pub check_balance : List EntryParams → Result ⊤
check_balance ps =
    let (debits, credits) = sum_entries (0, 0) ps in
    fail_if (not (debits == credits)) unbalanced_transaction

-- the validation of NewTransaction, up to the first `return` with an error
unfoldable pub check_params : List EntryParams → Result ⊤
check_params [] = err no_entries
check_params (p ∷ []) = err insufficient_entries
check_params (p ∷ q ∷ ps) = do
  check_amounts (p ∷ q ∷ ps)
  check_currencies p.amount.currency (q ∷ ps)
  check_balance (p ∷ q ∷ ps)
