-- ===== src/Account.antt =====
-- internal/domain/account/account.go. A method that returns a changed copy takes the time that
-- `time.Now` gives it as its first argument.
pub mod Spec
pub mod Invariant
pub mod Balance
pub mod Lifecycle
pub mod Persistence
use ledger_engine.Prelude.{String, Bool, true, false, not, ◌&&◌, str_eq, if◌then◌else◌, ⊤}
use ledger_engine.Prelude.Int64.{Int64, is_negative}
use ledger_engine.Environment.{Time, Env, UuidLib}
use ledger_engine.Errors.{
  Result, ok, err, fail_if, empty_name, insufficient_funds, account_not_active,
  zero_operation_amount, currency_mismatch, ◌>>=◌, ◌>>◌,
}
use ledger_engine.Exec
use ledger_engine.Exec.{Exec, pure, raise, lift, total}
use ledger_engine.Ledger.Money
use ledger_engine.Ledger.Money.{Money, Currency, new_money, is_zero}
use ledger_engine.Ledger.Identifiers.{AccountId, generate_account_id, new_account_id}

-- Both are strings, of which the program knows three; `other` is any other text.
pub data AccountType : Type 0 where
  asset liability equity : AccountType
  other_type : String → AccountType

pub data Status : Type 0 where
  active suspended closed : Status
  other_status : String → Status

-- AccountType(s), Status(s)
unfoldable pub account_type : String → AccountType
account_type s =
    if str_eq s "ASSET"
    then asset
    else if str_eq s "LIABILITY"
    then liability
    else if str_eq s "EQUITY"
    then equity
    else other_type s

unfoldable pub status_of : String → Status
status_of s =
    if str_eq s "ACTIVE"
    then active
    else if str_eq s "SUSPENDED"
    then suspended
    else if str_eq s "CLOSED"
    then closed
    else other_status s

-- string(t), string(s)
unfoldable pub account_type_string : AccountType → String
account_type_string asset = "ASSET"
account_type_string liability = "LIABILITY"
account_type_string equity = "EQUITY"
account_type_string (other_type s) = s

unfoldable pub status_string : Status → String
status_string active = "ACTIVE"
status_string suspended = "SUSPENDED"
status_string closed = "CLOSED"
status_string (other_status s) = s

pub record Account : Type 0 where
  pub id : AccountId
  pub name : String
  pub type : AccountType
  pub currency : Currency
  pub balance : Money
  pub status : Status
  pub created_at : Time
  pub updated_at : Time

-- `now` and `id` are drawn only once the checks have passed.
unfoldable pub new_account_with_type :
    {S : Type 0} → Env S → String → AccountType → Currency → Exec S Account
new_account_with_type env name type currency =
    if str_eq name ""
    then raise empty_name
    else Exec.◌>>=◌ (lift (new_money 0 currency)) λ balance. Exec.◌>>=◌ (total env.now) λ now.
      Exec.◌>>=◌ (generate_account_id env) λ id. pure (record {
        id = id;
        name = name;
        type = type;
        currency = currency;
        balance = balance;
        status = active;
        created_at = now;
        updated_at = now;
      })

unfoldable pub new_account : {S : Type 0} → Env S → String → Currency → Exec S Account
unfolding new_account_with_type
new_account env name currency = new_account_with_type env name asset currency

unfoldable pub reconstitute :
    UuidLib → String → String → String → String → Int64 → String → Time → Time → Result Account
reconstitute u id name type currency balance status created_at updated_at = do
  acc_id ← new_account_id u id
  bal ← new_money balance currency
  ok (record {
    id = acc_id;
    name = name;
    type = account_type type;
    currency = currency;
    balance = bal;
    status = status_of status;
    created_at = created_at;
    updated_at = updated_at;
  })

abbrev type_allows_negative : AccountType → Bool
type_allows_negative liability = true
type_allows_negative equity = true
type_allows_negative _ = false

abbrev pub allows_negative_balance : Account → Bool
allows_negative_balance a = type_allows_negative a.type

abbrev pub is_active : Status → Bool
is_active active = true
is_active _ = false

unfoldable pub validate_operation : Account → Money → Result ⊤
validate_operation a amount = do
  fail_if (not (is_active a.status)) account_not_active
  fail_if (is_zero amount) zero_operation_amount
  fail_if (not (str_eq amount.currency a.currency)) currency_mismatch

unfoldable pub credit : Time → Account → Money → Result Account
unfolding validate_operation
credit now a amount = do
  validate_operation a amount
  new_balance ← Money.add a.balance amount
  ok (record a { balance = new_balance; updated_at = now })

unfoldable pub debit : Time → Account → Money → Result Account
unfolding validate_operation
debit now a amount = do
  validate_operation a amount
  new_balance ← Money.subtract a.balance amount
  fail_if (is_negative new_balance.amount && not (allows_negative_balance a)) insufficient_funds
  ok (record a { balance = new_balance; updated_at = now })

-- if a.status == Active { … }
abbrev suspend_from : Status → Time → Account → Account
suspend_from active now a = record a { status = suspended; updated_at = now }
suspend_from _ now a = a

unfoldable pub suspend : Time → Account → Account
suspend now a = suspend_from a.status now a

abbrev reactivate_from : Status → Time → Account → Account
reactivate_from suspended now a = record a { status = active; updated_at = now }
reactivate_from _ now a = a

unfoldable pub reactivate : Time → Account → Account
reactivate now a = reactivate_from a.status now a

abbrev close_from : Status → Time → Account → Account
close_from closed now a = a
close_from _ now a = record a { status = closed; updated_at = now }

unfoldable pub close : Time → Account → Account
close now a = close_from a.status now a
