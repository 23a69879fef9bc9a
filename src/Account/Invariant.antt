-- ===== src/Account/Invariant.antt =====
-- Sequences of operations on an account, and NewAccountWithType, of
-- internal/domain/account/account.go.
use ledger_engine.Prelude.{
  ℕ, ◌+◌, ◌-◌, ◌^◌, ◌<◌, ◌≤◌, false, if◌then◌else◌, ◌≡◌, List, [], ◌∷◌, String, arith,
}
use ledger_engine.Prelude.Int64.{IsInt64, is_negative, add64, sub64, add64-IsInt64, sub64-IsInt64}
use ledger_engine.Environment.{Time, Env}
use ledger_engine.Exec.Rules.{Outcome}
use ledger_engine.Ledger.Money
use ledger_engine.Ledger.Money.{Money, Currency, new_money}
use ledger_engine.Ledger.Identifiers.{generate_account_id}
use ledger_engine.Account.{
  Account, AccountType, active, credit, debit, suspend, reactivate, close, new_account_with_type,
  allows_negative_balance,
}
use ledger_engine.Account.Spec.{Operation, apply, run, IsValid, SameIdentity}

credit-IsValid :
    (now : Time) (a : Account) (m : Money)
    → IsValid a
    → IsValid (apply now (Operation.credit m) a) × SameIdentity a (apply now (Operation.credit m) a)
unfolding apply credit Money.add
credit-IsValid now a m v = ground (arith, add64-IsInt64 a.balance.amount m.amount)

debit-IsValid :
    (now : Time) (a : Account) (m : Money)
    → IsValid a
    → IsValid (apply now (Operation.debit m) a) × SameIdentity a (apply now (Operation.debit m) a)
unfolding apply debit Money.subtract
debit-IsValid now a m v = ground (arith, sub64-IsInt64 a.balance.amount m.amount)

apply-IsValid :
    (now : Time) (op : Operation) (a : Account)
    → IsValid a
    → IsValid (apply now op a) × SameIdentity a (apply now op a)
unfolding apply suspend reactivate close
apply-IsValid now (Operation.credit m) a v = credit-IsValid now a m v
apply-IsValid now (Operation.debit m) a v = debit-IsValid now a m v
apply-IsValid now Operation.suspend a v = ground arith
apply-IsValid now Operation.reactivate a v = ground arith
apply-IsValid now Operation.close a v = ground arith

-- After any sequence of credits, debits, suspensions, reactivations and closings, refused ones
-- included, a valid account is valid and has its id, name, type, currency and time of creation.
pub run-IsValid :
    (ops : List (Time × Operation)) (a : Account)
    → IsValid a
    → IsValid (run ops a) × SameIdentity a (run ops a)
unfolding run
run-IsValid [] a v = ground arith
run-IsValid ((now, op) ∷ ops) a v =
    ground (
      arith,
      apply-IsValid now op a v,
      run-IsValid ops (apply now op a) (apply-IsValid now op a v).0,
    )

-- What an operation may add to a balance: a credit its amount, and a debit of a negative amount the
-- size of that.
abbrev pub inflow : Operation → ℕ
inflow (Operation.credit m) = m.amount
inflow (Operation.debit m) = if is_negative m.amount then 2 ^ 64 - m.amount else 0
inflow _ = 0

abbrev pub total_inflow : List (Time × Operation) → ℕ
total_inflow [] = 0
total_inflow ((_, op) ∷ ops) = inflow op + total_inflow ops

abbrev pub IsSized : Operation → Type 0
IsSized (Operation.credit m) = IsInt64 m.amount
IsSized (Operation.debit m) = IsInt64 m.amount
IsSized _ = Unit

abbrev pub AllSized : List (Time × Operation) → Type 0
AllSized [] = Unit
AllSized ((_, op) ∷ ops) = IsSized op × AllSized ops

apply-inflow :
    (now : Time) (op : Operation) (a : Account)
    → allows_negative_balance a ≡ false
    → IsSized op
    → a.balance.amount + inflow op < 2 ^ 63
    → ((apply now op a).balance.amount ≤ a.balance.amount + inflow op)
      × ((apply now op a).type ≡ a.type)
unfolding apply suspend reactivate close credit debit Money.add Money.subtract add64 sub64
apply-inflow now (Operation.credit m) a strict sized small = ground arith
apply-inflow now (Operation.debit m) a strict sized small = ground arith
apply-inflow now Operation.suspend a strict sized small = ground arith
apply-inflow now Operation.reactivate a strict sized small = ground arith
apply-inflow now Operation.close a strict sized small = ground arith

-- An account whose type does not allow a negative balance never has one, whatever sequence of
-- credits, debits, suspensions, reactivations and closings it is given, refused ones included: if
-- the amounts are of 64 bits, and the balance, the amounts of the credits and the sizes of the
-- negative amounts of the debits add up to less than 2 ^ 63, its balance afterwards is not negative
-- and at most that sum.
pub run_nonneg :
    (ops : List (Time × Operation)) (a : Account)
    → allows_negative_balance a ≡ false
    → AllSized ops
    → a.balance.amount + total_inflow ops < 2 ^ 63
    → (is_negative (run ops a).balance.amount ≡ false)
      × ((run ops a).balance.amount ≤ a.balance.amount + total_inflow ops)
unfolding run
run_nonneg [] a strict sized small = ground arith
run_nonneg ((now, op) ∷ ops) a strict (sized, all) small =
    let (bounded, typed) = apply-inflow now op a strict sized (omega (arith, small)) in
    let (nonneg, upto) =
      run_nonneg ops (apply now op a) (rw typed strict) all (omega (arith, small, bounded)) in
    (nonneg, omega (arith, upto, bounded))

-- If NewAccountWithType succeeds, the account is valid and active, has a balance of zero, and the
-- name, type and currency asked for; if it fails, nothing was drawn from the clock or the UUIDs.
pub new_account-IsValid :
    {S : Type 0} (env : Env S) (name : String) (type : AccountType) (currency : Currency) (s : S)
    → Outcome
        (λ a s'.
          IsValid a
          × (a.balance.amount ≡ 0)
          × (a.status ≡ active)
          × (a.name ≡ name)
          × (a.type ≡ type)
          × (a.currency ≡ currency))
        (λ s'. s' ≡ s)
        (new_account_with_type env name type currency s)
unfolding new_account_with_type new_money generate_account_id
new_account-IsValid env name type currency s = ground arith
