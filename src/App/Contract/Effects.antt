-- ===== src/App/Contract/Effects.antt =====
-- The effect of entries on the accounts, said without the loop of RecordTransaction.
use ledger_engine.Prelude.{◌≡◌, refl, Option, none, some, List, [], ◌∷◌, ◌++◌, arith, if◌then◌else◌}
use ledger_engine.Prelude.Int64.{Int64, add64, neg64, add64-zero}
use ledger_engine.Ledger.Identifiers.{AccountId, equals}
use ledger_engine.Ledger.Entry.{EntryType, debit, credit, other, EntryParams}
use ledger_engine.Account.{Account}
use ledger_engine.Account.Spec.{IsValid, SameIdentity}
use ledger_engine.App.Contract.View.{Accounts, update}

-- What an entry adds to the balance of its account.
abbrev pub signed : EntryType → Int64 → Int64
signed debit amount = neg64 amount
signed credit amount = amount
signed (other _) amount = 0

abbrev pub signed_amount : EntryParams → Int64
signed_amount p = signed p.type p.amount.amount

-- The sum of what the entries add to one account.
abbrev pub net : AccountId → List EntryParams → Int64
net j [] = 0
net j (p ∷ ps) = add64 (if equals p.account_id j then signed_amount p else 0) (net j ps)

-- The account is there before and after, the same but for a balance that moved by `n`; or it is not
-- there, before or after, and nothing was to move.
abbrev pub MovedBy : Int64 → Option Account → Option Account → Type 0
MovedBy n none none = n ≡ 0
MovedBy n none (some b) = ⊥
MovedBy n (some a) none = ⊥
MovedBy n (some a) (some b) =
    SameIdentity a b × (b.balance.amount ≡ add64 a.balance.amount n) × (b.status ≡ a.status)

-- Every account moved by the net of the entries on it.
abbrev pub Moved :
    List EntryParams → (AccountId → Option Account) → (AccountId → Option Account) → Type 0
Moved ps v v' = (j : AccountId) → MovedBy (net j ps) (v j) (v' j)

-- The entries before some point had their effect, and those from there on had none.
pub record StoppedWithin (ps : List EntryParams) (v v' : AccountId → Option Account) : Type 0 where
  pub done : List EntryParams
  pub left : List EntryParams
  pub split : done ++ left ≡ ps
  pub moved : Moved done v v'

-- Every account is stored under its id, and is valid.
pub record IsSound (v : AccountId → Option Account) : Type 0 where
  pub at : (j : AccountId) (a : Account) → v j ≡ some a → (a.id ≡ j) × IsValid a

module _ {v : AccountId → Option Account} (sound : IsSound v) where
  -- Where nothing is done, nothing moves.
  pub Moved-none : Moved [] v v
  Moved-none j = of_option (v j) refl
    where
      of_option : (o : Option Account) → v j ≡ o → MovedBy 0 o o
      of_option none e = refl
      of_option (some a) e = ground (arith, sound.at j a, add64-zero a.balance.amount)

pub MovedBy-trans :
    (m n : Int64) (o o' o'' : Option Account)
    → MovedBy m o o'
    → MovedBy n o' o''
    → MovedBy (add64 m n) o o''
unfolding add64
MovedBy-trans m n none none none h k = rw (h, k)
MovedBy-trans m n none none (some c) h k = k
MovedBy-trans m n none (some b) o'' h k = absurd h
MovedBy-trans m n (some a) none o'' h k = absurd h
MovedBy-trans m n (some a) (some b) none h k = absurd k
MovedBy-trans m n (some a) (some b) (some c) h k = ground arith

-- An account that is valid may be stored, over what its id had.
pub IsSound-update : (v : Accounts) (a : Account) → IsSound v → IsValid a → IsSound (update v a)
IsSound-update v a sound valid = record { at = λ j x p. ground (arith, sound.at j x, valid) }
