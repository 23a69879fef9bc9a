-- ===== src/App/Contract/Conservation.antt =====
-- The sum of the balances of a list of accounts, and entries that move them.
use ledger_engine.Prelude.{
  ℕ, ◌≡◌, refl, ap, Option, none, some, List, [], ◌∷◌, All, arith, if◌then◌else◌, suc,
}
use ledger_engine.Prelude.Int64.{Int64, IsInt64, add64, sub64, neg64, add64-IsInt64, sub64_self}
use ledger_engine.Ledger.Identifiers.{AccountId, equals}
use ledger_engine.Ledger.Entry.{EntryParams}
use ledger_engine.Ledger.Transaction.Spec.{debit_total, credit_total}
use ledger_engine.Account.{Account}
use ledger_engine.App.Contract.{Accounts}
use ledger_engine.App.Contract.Effects.{signed_amount, net, MovedBy, Moved}

-- What an account holds; one that is not stored holds nothing.
abbrev pub balance_of : Option Account → Int64
balance_of none = 0
balance_of (some a) = a.balance.amount

-- The sum of what the listed accounts hold, as an int64.
abbrev pub total_balance : Accounts → List AccountId → Int64
total_balance v [] = 0
total_balance v (j ∷ js) = add64 (balance_of (v j)) (total_balance v js)

total_balance-IsInt64 : (v : Accounts) (ids : List AccountId) → IsInt64 (total_balance v ids)
total_balance-IsInt64 v [] = omega arith
total_balance-IsInt64 v (j ∷ js) = add64-IsInt64 _ _

-- How often an account is listed.
abbrev pub occurrences : AccountId → List AccountId → ℕ
occurrences id [] = 0
occurrences id (j ∷ js) = if equals id j then suc (occurrences id js) else occurrences id js

-- Every account that the entries name is listed, and once.
abbrev pub ListsOnce : List EntryParams → List AccountId → Type 0
ListsOnce ps ids = All (λ (p : EntryParams). occurrences p.account_id ids ≡ 1) ps

balance_of-MovedBy :
    (n : Int64) (o o' : Option Account) → MovedBy n o o' → balance_of o' ≡ add64 (balance_of o) n
unfolding add64
balance_of-MovedBy n none none h = omega arith
balance_of-MovedBy n none (some b) h = absurd h
balance_of-MovedBy n (some a) none h = absurd h
balance_of-MovedBy n (some a) (some b) h = h.1

-- The nets on the listed accounts together.
abbrev sum_net : List AccountId → List EntryParams → Int64
sum_net [] ps = 0
sum_net (j ∷ js) ps = add64 (net j ps) (sum_net js ps)

total_balance-Moved :
    (ids : List AccountId) (ps : List EntryParams) (v v' : Accounts)
    → Moved ps v v'
    → total_balance v' ids ≡ add64 (total_balance v ids) (sum_net ids ps)
unfolding add64
total_balance-Moved [] ps v v' m = omega arith
total_balance-Moved (j ∷ js) ps v v' m =
    omega
      (arith, balance_of-MovedBy (net j ps) (v j) (v' j) (m j), total_balance-Moved js ps v v' m)

-- What one entry adds to the listed accounts.
abbrev sum_part : List AccountId → EntryParams → Int64
sum_part [] p = 0
sum_part (j ∷ js) p = add64 (if equals p.account_id j then signed_amount p else 0) (sum_part js p)

sum_part-unlisted :
    (ids : List AccountId) (p : EntryParams) → occurrences p.account_id ids ≡ 0 → sum_part ids p ≡ 0
unfolding add64
sum_part-unlisted [] p h = refl
sum_part-unlisted (j ∷ js) p h = ground (arith, sum_part-unlisted js p)

sum_part-listed :
    (ids : List AccountId) (p : EntryParams)
    → occurrences p.account_id ids ≡ 1
    → sum_part ids p ≡ add64 (signed_amount p) 0
unfolding add64
sum_part-listed [] p h = absurd (omega arith)
sum_part-listed (j ∷ js) p h = ground (arith, sum_part-unlisted js p, sum_part-listed js p)

sum_net-nil : (ids : List AccountId) → sum_net ids [] ≡ 0
unfolding add64
sum_net-nil [] = refl
sum_net-nil (j ∷ js) = omega (arith, sum_net-nil js)

sum_net-cons :
    (ids : List AccountId) (p : EntryParams) (ps : List EntryParams)
    → sum_net ids (p ∷ ps) ≡ add64 (sum_part ids p) (sum_net ids ps)
unfolding add64
sum_net-cons [] p ps = refl
sum_net-cons (j ∷ js) p ps = omega (arith, sum_net-cons js p ps)

-- Where each account is listed once, the nets sum up to the credits less the debits.
sum_net-eq :
    (ids : List AccountId) (ps : List EntryParams)
    → ListsOnce ps ids
    → sum_net ids ps ≡ sub64 (credit_total ps) (debit_total ps)
unfolding add64 sub64 neg64
sum_net-eq ids [] h = omega (arith, sum_net-nil ids)
sum_net-eq ids (p ∷ ps) h =
    ground (arith, sum_net-cons ids p ps, sum_part-listed ids p h.0, sum_net-eq ids ps h.1)

-- Whatever accounts are listed, if those of the entries are among them and none twice.
pub Moved-total_balance :
    (ids : List AccountId) (ps : List EntryParams) (v v' : Accounts)
    → Moved ps v v'
    → debit_total ps ≡ credit_total ps
    → ListsOnce ps ids
    → total_balance v' ids ≡ total_balance v ids
unfolding add64
Moved-total_balance ids ps v v' m balanced once = omega (
  arith,
  total_balance-Moved ids ps v v' m,
  total_balance-IsInt64 v ids,
  sum_net-eq ids ps once,
  sub64_self (debit_total ps),
  ap (λ t. sub64 t (debit_total ps)) balanced,
)
