-- ===== src/Ledger/Money/Laws.antt =====
-- The arithmetic of internal/domain/ledger/money.go.
use ledger_engine.Prelude.{◌≡◌, ◌↔◌, true, eq_iff, arith}
use ledger_engine.Prelude.Int64.{
  Int64, IsInt64, neg64, add64-IsInt64, sub64-IsInt64, add64_comm, add64-neg64, sub64-add64,
  add64-sub64,
}
use ledger_engine.Errors.{Result, ok, err}
use ledger_engine.Ledger.Money.{
  Money, Currency, is_valid_currency, new_money, add, subtract, negate, equals,
}

-- What NewMoney establishes: a currency of the table, and an amount of 64 bits.
pub record IsValid (m : Money) : Type 0 where
  pub known : is_valid_currency m.currency ≡ true
  pub in_range : IsInt64 m.amount

-- What holds of the value, if there is one.
abbrev pub Returns : {A : Type 0} → (A → Type 0) → Result A → Type 0
Returns P (ok a) = P a
Returns P (err e) = Unit

-- Equals returns true exactly if the two amounts of money are the same.
pub equals_iff : (m n : Money) → (equals m n ≡ true) ↔ (m ≡ n)
unfolding equals
equals_iff m n = ground (arith, eq_iff m.currency n.currency)

pub new_money-IsValid :
    (amount : Int64) (c : Currency) → IsInt64 amount → Returns IsValid (new_money amount c)
unfolding new_money
new_money-IsValid amount c h = ground arith

-- If the first of two amounts of money is valid, their sum is so, or Add returns an error.
pub add-IsValid : (m n : Money) → IsValid m → Returns IsValid (add m n)
unfolding add
add-IsValid m n h = ground (arith, add64-IsInt64 m.amount n.amount)

pub subtract-IsValid : (m n : Money) → IsValid m → Returns IsValid (subtract m n)
unfolding subtract
subtract-IsValid m n h = ground (arith, sub64-IsInt64 m.amount n.amount)

pub negate-IsValid : (m : Money) → IsValid m → IsValid (negate m)
unfolding negate neg64
negate-IsValid m h = ground (arith, sub64-IsInt64 0 m.amount)

-- Add of two amounts of money does not depend on their order, the refusal of mixed currencies
-- included.
pub add_comm : (m n : Money) → add m n ≡ add n m
unfolding add
add_comm m n = ground (
  arith,
  eq_iff m.currency n.currency,
  eq_iff n.currency m.currency,
  add64_comm m.amount n.amount,
)

-- Subtract takes off again what Add put on: the sum, if there is one, less the second amount is the
-- first, if that has 64 bits.
pub subtract-add : (m n s : Money) → IsInt64 m.amount → add m n ≡ ok s → subtract s n ≡ ok m
unfolding add subtract
subtract-add m n s h e =
    ground (arith, eq_iff m.currency n.currency, sub64-add64 m.amount n.amount h)

pub add-subtract : (m n d : Money) → IsInt64 m.amount → subtract m n ≡ ok d → add d n ≡ ok m
unfolding add subtract
add-subtract m n d h e =
    ground (arith, eq_iff m.currency n.currency, add64-sub64 m.amount n.amount h)

-- Add of the negated amount is Subtract, the refusal of mixed currencies included.
pub add-negate : (m n : Money) → add m (negate n) ≡ subtract m n
unfolding add subtract negate
add-negate m n = ground (arith, add64-neg64 m.amount n.amount)
