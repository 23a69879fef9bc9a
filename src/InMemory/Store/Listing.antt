-- ===== src/InMemory/Store/Listing.antt =====
-- The in-memory repository lists the accounts that are stored, each under the text of its id.
use mathlib.Core.List.Perm
use mathlib.Core.List.{Mem, Memᴰ}
use mathlib.Core.Logic.{∥∥₁_elim}
use ledger_engine.Prelude.{◌≡◌, refl, ap, true, none, some, List, [], ◌∷◌, arith, eq_iff, eq_refl}
use ledger_engine.Prelude.Dict.{Dict, lookup, insert, values, lookup-insert}
use ledger_engine.Environment.{UuidLib, Env}
use ledger_engine.Errors.{Result, ok}
use ledger_engine.Ledger.Identifiers.{account_id_string}
use ledger_engine.Ledger.Event.{DomainEvent, Payload}
use ledger_engine.Account.{Account}
use ledger_engine.App.Invariants.{Upholds}
use ledger_engine.App.Contract.Listing.{is_named, Listing}
use ledger_engine.InMemory.{
  World, MapOrder, save_account, find_account, find_all_accounts, account_repository,
  save_transaction, transaction_repository,
}
use ledger_engine.InMemory.Store.{stored, service, contract}

module _ (u : UuidLib) where
  -- Every account has the text of its id for a key, and no key comes twice.
  abbrev pub IsKeyed : Dict Account → Type 0
  IsKeyed [] = Unit
  IsKeyed ((k, a) ∷ m) = (k ≡ account_id_string u a.id) × (lookup k m ≡ none) × IsKeyed m

  insert-IsKeyed :
      (a : Account) (m : Dict Account) → IsKeyed m → IsKeyed (insert (account_id_string u a.id) a m)
  unfolding insert lookup
  insert-IsKeyed a [] h = (refl, refl, tt)
  insert-IsKeyed a ((k, b) ∷ m) (named, once, rest) =
      let text = account_id_string u a.id in
      ground
        (arith, insert-IsKeyed a m rest, lookup-insert text k a m, eq_iff k text, eq_iff text k)

  lookup-IsKeyed :
      (m : Dict Account) (a : Account)
      → IsKeyed m
      → Memᴰ a (values m)
      → lookup (account_id_string u a.id) m ≡ some a
  unfolding lookup
  lookup-IsKeyed [] a h inside = elim inside [ ]
  lookup-IsKeyed ((k, b) ∷ m) a (named, once, rest) (Memᴰ.head e) =
      rw (e, named, eq_refl (account_id_string u b.id)) refl
  lookup-IsKeyed ((k, b) ∷ m) a (named, once, rest) (Memᴰ.tail there) =
      ground (arith, lookup-IsKeyed m a rest there, eq_iff k (account_id_string u a.id))

  module _ (order : MapOrder) where
    listed :
        (w : World) (a : Account)
        → IsKeyed w.accounts
        → Mem a (order.of_accounts (values w.accounts))
        → is_named a.name (stored u w a.id) ≡ true
    listed w a keyed inside =
        ∥∥₁_elim ((Perm.mem_iff (order.of_accounts-perm (values w.accounts))).0 inside) (hlevel)
          (λ d. rw (lookup-IsKeyed w.accounts a keyed d) (eq_refl a.name))

    pub ports :
        (env : Env World) (marshal : DomainEvent → Result Payload)
        → ((w : World) → (env.now w).1.accounts ≡ w.accounts)
        → ((w : World) → (env.new_uuid w).1.accounts ≡ w.accounts)
        → Upholds (λ w. IsKeyed w.accounts) (service u order env marshal)
    unfolding account_repository save_account find_account find_all_accounts transaction_repository
        save_transaction
    ports env marshal now_accounts uuid_accounts = record {
      now = λ w h. rw (now_accounts w) h;
      new_uuid = λ w h. rw (uuid_accounts w) h;
      save = λ a w h. insert-IsKeyed a w.accounts h;
      find_by_id = λ id w h. h;
      find_all = λ w h. h;
      save_transaction = λ tx w h. h;
      appends = tt;
      projector = tt;
    }

    pub listing_law :
        (w w' : World) (all : List Account) (a : Account)
        → IsKeyed w.accounts
        → (account_repository u order).find_all w ≡ (ok all, w')
        → Mem a all
        → is_named a.name (stored u w a.id) ≡ true
    unfolding account_repository find_all_accounts
    listing_law w w' all a keyed e inside =
        let same : ok (order.of_accounts (values w.accounts)) ≡ ok all = ap (λ r. r.0) e in
        let these : order.of_accounts (values w.accounts) ≡ all = cc in
        listed w a keyed (rw these inside)

    -- A service over the in-memory repositories fulfils what the lookups rely on.
    abbrev pub listing :
        (env : Env World) (marshal : DomainEvent → Result Payload)
        (now_keeps : (w : World) → stored u (env.now w).1 ≡ stored u w)
        (uuid_keeps : (w : World) → stored u (env.new_uuid w).1 ≡ stored u w)
        → ((w : World) → (env.now w).1.accounts ≡ w.accounts)
        → ((w : World) → (env.new_uuid w).1.accounts ≡ w.accounts)
        → Listing (service u order env marshal) (contract u order env marshal now_keeps uuid_keeps)
    listing env marshal now_keeps uuid_keeps now_accounts uuid_accounts = record {
      Holds = λ w. IsKeyed w.accounts;
      upheld = ports env marshal now_accounts uuid_accounts;
      listed = listing_law;
    }
