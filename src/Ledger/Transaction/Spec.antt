-- ===== src/Ledger/Transaction/Spec.antt =====
-- What a transaction has to be, said without the loops of transaction.go.
use ledger_engine.Prelude.{◌≡◌, ◌≢◌, ◌≤◌, List, [], ◌∷◌, length, All}
use ledger_engine.Prelude.Int64.{Int64, add64}
use ledger_engine.Ledger.Entry.{EntryType, debit, credit, other, EntryParams, Entry}

-- What an entry adds to the debits, and to the credits.
abbrev pub debit_part : EntryType → Int64 → Int64
debit_part debit amount = amount
debit_part credit amount = 0
debit_part (other _) amount = 0

abbrev pub credit_part : EntryType → Int64 → Int64
credit_part debit amount = 0
credit_part credit amount = amount
credit_part (other _) amount = 0

-- The sums of all debits and of all credits, as int64.
abbrev pub debit_total : List EntryParams → Int64
debit_total [] = 0
debit_total (p ∷ ps) = add64 (debit_part p.type p.amount.amount) (debit_total ps)

abbrev pub credit_total : List EntryParams → Int64
credit_total [] = 0
credit_total (p ∷ ps) = add64 (credit_part p.type p.amount.amount) (credit_total ps)

abbrev pub NonZero : EntryParams → Type 0
NonZero p = p.amount.amount ≢ 0

-- All entries are in one currency.
abbrev pub InOneCurrency : List EntryParams → Type 0
InOneCurrency [] = Unit
InOneCurrency (p ∷ ps) = All (λ (q : EntryParams). q.amount.currency ≡ p.amount.currency) ps

-- The double-entry rule.
pub record IsBooked (ps : List EntryParams) : Type 0 where
  pub enough : 2 ≤ length ps
  pub nonzero : All NonZero ps
  pub one_currency : InOneCurrency ps
  pub balanced : debit_total ps ≡ credit_total ps

-- The part of an entry that was asked for.
abbrev pub params_of : Entry → EntryParams
params_of e = record { account_id = e.account_id; amount = e.amount; type = e.type }
