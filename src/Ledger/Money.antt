-- ===== src/Ledger/Money.antt =====
-- internal/domain/ledger/money.go. A `Currency` is a string, checked against the table of valid
-- codes where a `Money` is made; an amount is an int64.
pub mod Laws
use ledger_engine.Prelude.{String, Bool, not, ◌&&◌, ◌||◌, ◌==◌, str_eq, if◌then◌else◌}
use ledger_engine.Prelude.Int64.{Int64, add64, sub64, neg64}
use ledger_engine.Errors.{Result, ok, err, invalid_currency, currency_mismatch}

abbrev pub Currency : Type 0
Currency = String

-- the keys of `validCurrencies`
unfoldable pub is_valid_currency : Currency → Bool
is_valid_currency c =
    str_eq c "USD" || str_eq c "MYR" || str_eq c "SGD" || str_eq c "EUR" || str_eq c "GBP"

pub record Money : Type 0 where
  pub amount : Int64
  pub currency : Currency

unfoldable pub new_money : Int64 → Currency → Result Money
new_money amount currency =
    if not (is_valid_currency currency)
    then err invalid_currency
    else ok (record { amount = amount; currency = currency })

abbrev pub is_zero : Money → Bool
is_zero m = m.amount == 0

unfoldable pub add : Money → Money → Result Money
add m other =
    if not (str_eq m.currency other.currency)
    then err currency_mismatch
    else ok (record { amount = add64 m.amount other.amount; currency = m.currency })

unfoldable pub subtract : Money → Money → Result Money
subtract m other =
    if not (str_eq m.currency other.currency)
    then err currency_mismatch
    else ok (record { amount = sub64 m.amount other.amount; currency = m.currency })

unfoldable pub negate : Money → Money
negate m = record { amount = neg64 m.amount; currency = m.currency }

unfoldable pub equals : Money → Money → Bool
equals m other = m.amount == other.amount && str_eq m.currency other.currency
