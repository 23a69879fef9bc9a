-- ===== src/Tests.antt =====
-- Concrete libraries and a small ledger, on which the theorems are applied and the code is run.
mod Domain
mod Accounts
mod Sagas
mod Recordings
mod Transfers
mod Outbox
mod ReadModel
mod Web
mod Wiring
mod Concurrency
use mathlib.Core.List.Perm
use ledger_engine.Prelude.{
  none, some, true, List, [], ◌∷◌, ℕ, zero, suc, ◌+◌, ◌≡◌, refl, ap, String, arith,
}
use ledger_engine.Environment.{Uuid, UuidLib, Env}
use ledger_engine.Errors.{Result, ok}
use ledger_engine.Prelude.Int64.{IsInt64}
use ledger_engine.Prelude.Dict.{lookup}
use ledger_engine.Ledger.Money.{is_valid_currency}
use ledger_engine.Ledger.Event.{DomainEvent, Payload}
use ledger_engine.Ledger.Identifiers.{AccountId}
use ledger_engine.Account.{Account, AccountType, asset, equity, liability, active}
use ledger_engine.Account.Spec.{IsValid}
use ledger_engine.Postgres.Server.{Server}
use ledger_engine.App.Contract.{Contract}
use ledger_engine.App.Contract.Listing.{Listing}
use ledger_engine.InMemory.Store.Listing.{listing}
use ledger_engine.App.Contract.Effects.{IsSound, IsSound-update}
use ledger_engine.App.Ports.{LedgerService}
use ledger_engine.InMemory.{account_repository, World, MapOrder, empty, save_account}
use ledger_engine.InMemory.Store.{stored, stored-save_account, service, contract, reliable}
use ledger_engine.App.Service.Recording.Atomicity.{IsReliable}

-- A number, written as that many strokes.
abbrev strokes : ℕ → String
strokes zero = String.[]
strokes (suc n) = String.◌∷◌ "|" (strokes n)

abbrev count_strokes : String → ℕ
count_strokes String.[] = 0
count_strokes (String.◌∷◌ c s) = suc (count_strokes s)

count_strokes-strokes : (n : ℕ) → count_strokes (strokes n) ≡ n
count_strokes-strokes zero = refl
count_strokes-strokes (suc n) = ap suc (count_strokes-strokes n)

pub parse_strokes : (n : ℕ) → ok (count_strokes (strokes n)) ≡ ok n
parse_strokes n = ap ok (count_strokes-strokes n)

abbrev uuids : UuidLib
uuids = record {
  parse = λ s. ok (count_strokes s);
  to_string = strokes;
  parse-to_string = parse_strokes;
}

abbrev in_order : MapOrder
in_order = record {
  of_accounts = λ l. l;
  of_accounts-perm = λ l. Perm.refl l;
  of_transactions = λ l. l;
  of_transactions-perm = λ l. Perm.refl l;
}

-- A clock that ticks, and identifiers from 100 on.
abbrev ticking : Env World
ticking = record {
  now = λ w. (w.ticks, record w { ticks = w.ticks + 1 });
  new_uuid = λ w. (w.drawn + 100, record w { drawn = w.drawn + 1 });
}

abbrev no_bytes : DomainEvent → Result Payload
no_bytes event = ok []

abbrev ledger : LedgerService World
ledger = service uuids in_order ticking no_bytes

abbrev laws : Contract ledger
laws = contract uuids in_order ticking no_bytes (λ w. refl) (λ w. refl)

abbrev lists : Listing ledger laws
lists = listing uuids in_order ticking no_bytes (λ w. refl) (λ w. refl) (λ w. refl) (λ w. refl)

abbrev ledger-IsReliable : IsReliable ledger laws
ledger-IsReliable = reliable uuids in_order ticking no_bytes (λ w. refl) (λ w. refl)

abbrev account_of : ℕ → String → AccountType → ℕ → Account
account_of id name type amount = record {
  id = record { value = id };
  name = name;
  type = type;
  currency = "USD";
  balance = record { amount = amount; currency = "USD" };
  status = active;
  created_at = 0;
  updated_at = 0;
}

abbrev alice : Account
alice = account_of 1 "Alice" asset 1000

abbrev bob : Account
bob = account_of 2 "Bob" asset 50

abbrev suspense : Account
suspense = account_of 3 "System Suspense (USD)" liability 0

abbrev store : Account → World → World
store a w = (save_account uuids in_order a w).1

-- Alice, Bob and the suspense account.
abbrev town : World
town = store suspense (store bob (store alice empty))

account_of-IsValid :
    (id : ℕ) (name : String) (type : AccountType) (amount : ℕ)
    → IsInt64 amount
    → IsValid (account_of id name type amount)
unfolding is_valid_currency
account_of-IsValid id name type amount small = record {
  known = refl;
  one_currency = refl;
  in_range = small;
}

alice-IsValid : IsValid alice
alice-IsValid = account_of-IsValid 1 "Alice" asset 1000 (omega arith)

store-IsSound :
    (a : Account) (w : World)
    → IsValid a
    → IsSound (stored uuids w)
    → IsSound (stored uuids (store a w))
store-IsSound a w valid sound =
    rw (stored-save_account uuids in_order a w) (IsSound-update (stored uuids w) a sound valid)

empty-IsSound : IsSound (stored uuids empty)
unfolding lookup
empty-IsSound = record { at = λ j a h. cc }

town-IsSound : IsSound (stored uuids town)
town-IsSound = store-IsSound suspense _ (account_of-IsValid 3 _ liability 0 (omega arith)) (
    store-IsSound bob _ (account_of-IsValid 2 _ asset 50 (omega arith))
      (store-IsSound alice empty alice-IsValid empty-IsSound))

store-Holds : (a : Account) (w : World) → lists.Holds w → lists.Holds (store a w)
unfolding account_repository
store-Holds a w h = lists.upheld.save a w h

pub town-Holds : lists.Holds town
town-Holds = store-Holds suspense _ (store-Holds bob _ (store-Holds alice empty tt))

abbrev everyone : List AccountId
everyone = record { value = 1 } ∷ record { value = 2 } ∷ record { value = 3 } ∷ []

-- A server that answers every call, and whose clock is the number of the call.
abbrev postgres : Server
postgres = record {
  fault = λ n. none;
  now = λ n. n;
  jsonb = λ payload. some payload;
  timestamptz = λ t. t;
  collation = λ a b. true;
}
