-- ===== src/Account/Balance.antt =====
-- Credit and Debit of internal/domain/account/account.go: when they succeed, what they do, and how
-- far the rule "an asset account does not go negative" is kept.
use ledger_engine.Prelude.{ℕ, ◌+◌, ◌^◌, ◌≤◌, ◌<◌, ◌≡◌, ◌↔◌, ◌⊎◌, true, false, eq_iff, arith, refl}
use ledger_engine.Prelude.Int64.{add64, sub64, neg64, is_negative, sub64-add64}
use ledger_engine.Environment.{Time}
use ledger_engine.Errors.{ok, err, insufficient_funds}
use ledger_engine.Ledger.Money
use ledger_engine.Ledger.Money.{Money}
use ledger_engine.Account.{Account, asset, allows_negative_balance, credit, debit}
use ledger_engine.Account.Spec.{IsValid, CanMove, credited, debited}

-- Credit of a valid account succeeds exactly when the account is active and the amount is not zero
-- and in its currency; the result is the account with the amount added and a new time of update.
pub credit_iff :
    (now : Time) (a b : Account) (m : Money)
    → IsValid a
    → (credit now a m ≡ ok b) ↔ (CanMove a m × (b ≡ credited now a m))
unfolding credit Money.add
credit_iff now a b m v =
    ground (arith, eq_iff m.currency a.currency, eq_iff a.balance.currency m.currency)

-- Debit of a valid account succeeds exactly when the account is active, the amount is not zero and
-- in its currency, and the type allows a negative balance or the difference is not negative; the
-- result is the account with the amount taken off and a new time of update.
pub debit_iff :
    (now : Time) (a b : Account) (m : Money)
    → IsValid a
    → (debit now a m ≡ ok b) ↔ (
        CanMove a m
        × ((allows_negative_balance a ≡ true)
            ⊎ (is_negative (sub64 a.balance.amount m.amount) ≡ false))
        × (b ≡ debited now a m))
unfolding debit Money.subtract
debit_iff now a b m v =
    ground (arith, eq_iff m.currency a.currency, eq_iff a.balance.currency m.currency)

-- A debit that succeeds never leaves an account that must not be negative below zero, whatever the
-- sign of the amount.
pub debit_nonneg :
    (now : Time) (a b : Account) (m : Money)
    → allows_negative_balance a ≡ false
    → debit now a m ≡ ok b
    → is_negative b.balance.amount ≡ false
unfolding debit
debit_nonneg now a b m h e = ground arith

-- For a valid, active asset account with a balance that is not negative, Debit of a positive amount
-- in its currency that exceeds the balance returns the error of insufficient funds.
pub debit_overdraft :
    (now : Time) (a : Account) (m : Money)
    → IsValid a
    → CanMove a m
    → a.type ≡ asset
    → a.balance.amount < m.amount
    → m.amount < 2 ^ 63
    → debit now a m ≡ err insufficient_funds
unfolding debit Money.subtract sub64
debit_overdraft now a m v c t short small =
    ground (arith, eq_iff m.currency a.currency, eq_iff a.balance.currency m.currency)

-- If balance and amount, neither of them negative, add up to less than 2 ^ 63, a credit that
-- succeeds leaves a balance that is not negative.
pub credit_nonneg :
    (now : Time) (a b : Account) (m : Money)
    → a.balance.amount + m.amount < 2 ^ 63
    → credit now a m ≡ ok b
    → is_negative b.balance.amount ≡ false
unfolding credit Money.add add64
credit_nonneg now a b m h e = ground arith

-- A credit of a negative amount, of k at most 2 ^ 63 below zero, to a valid, active asset account
-- with a smaller balance succeeds, and leaves the balance negative.
pub credit_negative_overdraws :
    (now : Time) (a : Account) (k : ℕ) (m : Money)
    → IsValid a
    → CanMove a m
    → a.type ≡ asset
    → a.balance.amount < k
    → k ≤ 2 ^ 63
    → m.amount ≡ neg64 k
    → (credit now a m ≡ ok (credited now a m))
      × (is_negative (credited now a m).balance.amount ≡ true)
unfolding add64 neg64 sub64
credit_negative_overdraws now a k m v c t short small e =
    ((credit_iff now a (credited now a m) m v).1 (c, refl), ground arith)

-- If a credit of a valid account with a balance that is not negative succeeds, a debit of the same
-- amount succeeds as well, and gives the account back but for the time of update.
pub debit-credit :
    (now later : Time) (a b : Account) (m : Money)
    → IsValid a
    → is_negative a.balance.amount ≡ false
    → credit now a m ≡ ok b
    → debit later b m ≡ ok (record a { updated_at = later })
unfolding credit debit Money.add Money.subtract
debit-credit now later a b m v h e = ground (
  arith,
  eq_iff m.currency a.currency,
  eq_iff a.balance.currency m.currency,
  sub64-add64 a.balance.amount m.amount v.in_range,
)
