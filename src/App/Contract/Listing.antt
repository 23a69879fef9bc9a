-- ===== src/App/Contract/Listing.antt =====
-- What the lookups of the services rely on of FindAll: a property of the state that every call keeps,
-- and under which FindAll lists accounts that are stored.
use mathlib.Core.List.{Mem}
use ledger_engine.Prelude.{◌≡◌, true, false, Bool, str_eq, String, Option, none, some, List}
use ledger_engine.Errors.{ok}
use ledger_engine.Account.{Account}
use ledger_engine.App.Ports.{LedgerService}
use ledger_engine.App.Contract.{Contract}
use ledger_engine.App.Invariants.{Upholds}

-- An account of that name is stored there.
abbrev pub is_named : String → Option Account → Bool
is_named name none = false
is_named name (some a) = str_eq a.name name

pub record Listing {S : Type 0} (svc : LedgerService S) (c : Contract svc) : Type 1 where
  pub Holds : S → Type 0
  pub upheld : Upholds Holds svc
  pub listed :
      (s s' : S) (all : List Account) (a : Account)
      → Holds s
      → svc.accounts.find_all s ≡ (ok all, s')
      → Mem a all
      → is_named a.name (c.view s a.id) ≡ true
