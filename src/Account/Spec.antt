-- ===== src/Account/Spec.antt =====
-- The operations of an account as data, and a caller that keeps the account it had when one is
-- refused.
use ledger_engine.Prelude.{◌≡◌, ◌≢◌, true, List, [], ◌∷◌}
use ledger_engine.Prelude.Int64.{Int64, IsInt64, add64, sub64}
use ledger_engine.Environment.{Time}
use ledger_engine.Errors.{Result, ok, err}
use ledger_engine.Ledger.Money.{Money, is_valid_currency}
use ledger_engine.Account
use ledger_engine.Account.{Account, active}

pub data Operation : Type 0 where
  credit debit : Money → Operation
  suspend reactivate close : Operation

abbrev or_unchanged : Account → Result Account → Account
or_unchanged a (ok b) = b
or_unchanged a (err _) = a

unfoldable pub apply : Time → Operation → Account → Account
apply now (Operation.credit m) a = or_unchanged a (Account.credit now a m)
apply now (Operation.debit m) a = or_unchanged a (Account.debit now a m)
apply now Operation.suspend a = Account.suspend now a
apply now Operation.reactivate a = Account.reactivate now a
apply now Operation.close a = Account.close now a

unfoldable pub run : List (Time × Operation) → Account → Account
run [] a = a
run ((now, op) ∷ ops) a = run ops (apply now op a)

-- The balance is 64 bits wide, in the currency of the account, which is one of the table.
pub record IsValid (a : Account) : Type 0 where
  pub known : is_valid_currency a.currency ≡ true
  pub one_currency : a.balance.currency ≡ a.currency
  pub in_range : IsInt64 a.balance.amount

-- What no operation changes.
pub record SameIdentity (a b : Account) : Type 0 where
  pub id : b.id ≡ a.id
  pub name : b.name ≡ a.name
  pub type : b.type ≡ a.type
  pub currency : b.currency ≡ a.currency
  pub created_at : b.created_at ≡ a.created_at

-- Money may move: the account is active, and the amount is not zero and in its currency.
pub record CanMove (a : Account) (m : Money) : Type 0 where
  pub is_active : a.status ≡ active
  pub nonzero : m.amount ≢ 0
  pub same_currency : m.currency ≡ a.currency

abbrev pub with_balance : Time → Int64 → Account → Account
with_balance now amount a = record a {
  balance = record a.balance { amount = amount };
  updated_at = now;
}

abbrev pub credited : Time → Account → Money → Account
credited now a m = with_balance now (add64 a.balance.amount m.amount) a

abbrev pub debited : Time → Account → Money → Account
debited now a m = with_balance now (sub64 a.balance.amount m.amount) a
