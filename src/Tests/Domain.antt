-- ===== src/Tests/Domain.antt =====
-- Money and transactions: the theorems about them at concrete arguments.
use ledger_engine.Prelude.{ℕ, ◌≡◌, ◌≢◌, ◌↔◌, refl, List, [], ◌∷◌, arith}
use ledger_engine.Prelude.Int64.{Int64, add64}
use ledger_engine.Errors.{Error, ok, err}
use ledger_engine.Exec.Rules.{Outcome}
use ledger_engine.Ledger.Money.{Money, is_valid_currency, add}
use ledger_engine.Ledger.Money.Laws
use ledger_engine.Ledger.Money.Laws.{Returns}
use ledger_engine.Ledger.Entry.{EntryType, debit, credit, EntryParams}
use ledger_engine.Ledger.Transaction.{check_params, new_transaction}
use ledger_engine.Ledger.Transaction.Checks.{check_amounts}
use ledger_engine.Ledger.Transaction.Spec.{IsBooked}
use ledger_engine.Ledger.Transaction.Validation.{
  check_params_iff, IsRefused, check_params-IsRefused,
}
use ledger_engine.Ledger.Transaction.Creation.{Records, new_transaction-Records}
use ledger_engine.InMemory.{World}
use ledger_engine.Tests.{ticking, town}

abbrev usd : Int64 → Money
usd n = record { amount = n; currency = "USD" }

usd-IsValid : Laws.IsValid (usd 700)
unfolding is_valid_currency
usd-IsValid = record { known = refl; in_range = omega arith }

abbrev line : ℕ → Int64 → EntryType → EntryParams
line id n type = record { account_id = record { value = id }; amount = usd n; type = type }

-- A debit of 300 and two credits that come to it, and a debit of nothing.
abbrev split : List EntryParams
split = line 1 300 debit ∷ line 2 100 credit ∷ line 3 200 credit ∷ []

abbrev idle : List EntryParams
idle = line 1 0 debit ∷ line 2 100 credit ∷ []

sum_of : add (usd 700) (usd 300) ≡ ok (usd 1000)
unfolding add add64
sum_of = refl

check_params_iff_example : (check_params split ≡ ok tt) ↔ IsBooked split
check_params_iff_example = check_params_iff split

idle_refused : check_params idle ≢ ok tt
unfolding check_params check_amounts
idle_refused = λ h. cc

check_params-IsRefused_example : (e : Error) × (check_params idle ≡ err e) × IsRefused idle e
check_params-IsRefused_example = check_params-IsRefused idle idle_refused

new_transaction-Records_example :
    Outcome
      (λ t (s' : World). Records ticking split "groceries" t)
      (λ s'. (s' ≡ town) × ¬ IsBooked split)
      (new_transaction ticking split "groceries" town)
new_transaction-Records_example = new_transaction-Records ticking split "groceries" town
