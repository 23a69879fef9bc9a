-- ===== src/Ledger/Transaction/Validation.antt =====
-- The checks of NewTransaction (internal/domain/ledger/transaction.go) and the double-entry rule.
use ledger_engine.Prelude.{
  ◌≡◌, ◌≢◌, refl, ◌↔◌, ◌⊎◌, ◌≤◌, inl, inr, List, [], ◌∷◌, All, length, arith, eq_iff, ◌∙◌,
}
use ledger_engine.Prelude.Int64.{
  Int64, IsInt64, add64, add64-IsInt64, add64_assoc, add64-zero, zero-add64,
}
use ledger_engine.Errors.{
  Error, ok, err, no_entries, insufficient_entries, unbalanced_transaction, zero_amount,
  currency_mismatch,
}
use ledger_engine.Ledger.Money.{Currency}
use ledger_engine.Ledger.Entry.{EntryType, EntryParams}
use ledger_engine.Ledger.Transaction.Checks.{
  check_amounts, check_currencies, add_to_totals, sum_entries, check_balance, check_params,
}
use ledger_engine.Ledger.Transaction.Spec.{
  debit_part, credit_part, debit_total, credit_total, NonZero, InOneCurrency, IsBooked,
}

check_amounts_iff : (ps : List EntryParams) → (check_amounts ps ≡ ok tt) ↔ All NonZero ps
unfolding check_amounts
check_amounts_iff [] = ground arith
check_amounts_iff (p ∷ ps) = ground (arith, check_amounts_iff ps)

check_currencies_iff :
    (c : Currency) (ps : List EntryParams)
    → (check_currencies c ps ≡ ok tt) ↔ All (λ (q : EntryParams). q.amount.currency ≡ c) ps
unfolding check_currencies
check_currencies_iff c [] = ground arith
check_currencies_iff c (p ∷ ps) =
    ground (arith, check_currencies_iff c ps, eq_iff p.amount.currency c)

-- One round of the summing loop.
add_to_totals-eq :
    (t : EntryType) (amount d c : Int64)
    → IsInt64 d
    → IsInt64 c
    → add_to_totals t amount (d, c)
      ≡ (add64 d (debit_part t amount), add64 c (credit_part t amount))
unfolding add_to_totals
add_to_totals-eq t amount d c hd hc = ground (arith, add64-zero d hd, add64-zero c hc)

debit_total-IsInt64 : (ps : List EntryParams) → IsInt64 (debit_total ps)
debit_total-IsInt64 [] = omega arith
debit_total-IsInt64 (p ∷ ps) = add64-IsInt64 _ _

credit_total-IsInt64 : (ps : List EntryParams) → IsInt64 (credit_total ps)
credit_total-IsInt64 [] = omega arith
credit_total-IsInt64 (p ∷ ps) = add64-IsInt64 _ _

-- The loop adds the two sums to its accumulators.
sum_entries-eq :
    (d c : Int64) (ps : List EntryParams)
    → IsInt64 d
    → IsInt64 c
    → sum_entries (d, c) ps ≡ (add64 d (debit_total ps), add64 c (credit_total ps))
unfolding sum_entries
sum_entries-eq d c [] hd hc = ground (arith, add64-zero d hd, add64-zero c hc)
sum_entries-eq d c (p ∷ ps) hd hc =
    let x = debit_part p.type p.amount.amount in
    let y = credit_part p.type p.amount.amount in
    rw (add_to_totals-eq p.type p.amount.amount d c hd hc) (
      sum_entries-eq (add64 d x) (add64 c y) ps (add64-IsInt64 d x) (add64-IsInt64 c y)
      ∙ cc (add64_assoc d x (debit_total ps), add64_assoc c y (credit_total ps)))

check_balance_iff :
    (ps : List EntryParams) → (check_balance ps ≡ ok tt) ↔ (debit_total ps ≡ credit_total ps)
unfolding check_balance
check_balance_iff ps = rw (sum_entries-eq 0 0 ps (omega arith) (omega arith)) (
    rw (zero-add64 _ (debit_total-IsInt64 ps), zero-add64 _ (credit_total-IsInt64 ps))
      (ground arith))

-- The checks of NewTransaction pass exactly if the double-entry rule holds: two entries at least,
-- no amount zero, one currency, and equal sums of debits and credits as int64.
pub check_params_iff : (ps : List EntryParams) → (check_params ps ≡ ok tt) ↔ IsBooked ps
unfolding check_params
check_params_iff [] = ground arith
check_params_iff (p ∷ []) = ground arith
check_params_iff (p ∷ q ∷ ps) = ground (
  arith,
  check_amounts_iff (p ∷ q ∷ ps),
  check_currencies_iff p.amount.currency (q ∷ ps),
  check_balance_iff (p ∷ q ∷ ps),
)

-- Why a list of parameters is refused: the first check in the source's order that it fails.
pub data IsRefused (ps : List EntryParams) : Error → Type 0 where
  none_given : ps ≡ [] → IsRefused ps no_entries
  one_given : length ps ≡ 1 → IsRefused ps insufficient_entries
  has_zero : 2 ≤ length ps → ¬ All NonZero ps → IsRefused ps zero_amount
  mixed : 2 ≤ length ps → All NonZero ps → ¬ InOneCurrency ps → IsRefused ps currency_mismatch
  uneven :
      2 ≤ length ps
      → All NonZero ps
      → InOneCurrency ps
      → debit_total ps ≢ credit_total ps
      → IsRefused ps unbalanced_transaction

check_amounts-error :
    (ps : List EntryParams) → (check_amounts ps ≡ ok tt) ⊎ (check_amounts ps ≡ err zero_amount)
unfolding check_amounts
check_amounts-error [] = inl refl
check_amounts-error (p ∷ ps) = ground (arith, check_amounts-error ps)

check_currencies-error :
    (c : Currency) (ps : List EntryParams)
    → (check_currencies c ps ≡ ok tt) ⊎ (check_currencies c ps ≡ err currency_mismatch)
unfolding check_currencies
check_currencies-error c [] = inl refl
check_currencies-error c (p ∷ ps) = ground (arith, check_currencies-error c ps)

check_balance-error :
    (ps : List EntryParams)
    → (check_balance ps ≡ ok tt) ⊎ (check_balance ps ≡ err unbalanced_transaction)
unfolding check_balance
check_balance-error ps = ground arith

-- If the checks do not pass, they return an error, and it names the first rule in the source's
-- order that the parameters break.
pub check_params-IsRefused :
    (ps : List EntryParams)
    → check_params ps ≢ ok tt
    → (e : Error) × (check_params ps ≡ err e) × IsRefused ps e
unfolding check_params
check_params-IsRefused [] h = (no_entries, refl, none_given refl)
check_params-IsRefused (p ∷ []) h = (insufficient_entries, refl, one_given refl)
check_params-IsRefused (p ∷ q ∷ ps) h =
    let l = p ∷ q ∷ ps in
    let amounts = check_amounts_iff l in
    let currencies = check_currencies_iff p.amount.currency (q ∷ ps) in
    let balance = check_balance_iff l in
    elim (check_amounts-error l) [
      | inr bad ↦ (zero_amount, ground arith, has_zero (omega arith) (ground arith))
      | inl a ↦ elim (check_currencies-error p.amount.currency (q ∷ ps)) [
        | inr bad ↦
            (currency_mismatch, ground arith, mixed (omega arith) (amounts.0 a) (ground arith))
        | inl c ↦ elim (check_balance-error l) [
          | inr bad ↦ (
            unbalanced_transaction,
            ground arith,
            uneven (omega arith) (amounts.0 a) (currencies.0 c) (ground arith),
          )
          | inl b ↦ absurd (h (ground arith))
        ]
      ]
    ]
