-- ===== src/InMemory/Store.antt =====
-- internal/infra/inmemory: the in-memory repositories, and the contract that the services rely on.
pub mod Listing
use ledger_engine.Prelude.{
  ◌≡◌, refl, ap, fun_ext, ◌∙◌, none, some, arith, str_eq, eq_iff, ◌==◌, if◌then◌else◌,
}
use ledger_engine.Prelude.Dict.{lookup, lookup-insert}
use ledger_engine.Environment.{Uuid, UuidLib, Env}
use ledger_engine.Errors.{Error, Result, ok, err, account_not_found}
use ledger_engine.Ledger.Identifiers.{AccountId, account_id_string}
use ledger_engine.Ledger.Event.{DomainEvent, Payload}
use ledger_engine.Ledger.Transaction.{Transaction}
use ledger_engine.Account.{Account}
use ledger_engine.App.Ports.{LedgerService}
use ledger_engine.App.Contract.{Accounts, update, Contract}
use ledger_engine.App.Service.Recording.Atomicity.{IsReliable}
use ledger_engine.InMemory.{
  World, MapOrder, save_account, find_account, find_all_accounts, account_repository,
  save_transaction, transaction_repository,
}

module _ (u : UuidLib) where
  -- What is stored under the text of an id.
  abbrev pub stored : World → Accounts
  stored w id = lookup (account_id_string u id) w.accounts

  -- Different ids have different texts, since a text is read back.
  to_string_eq : (a b : Uuid) → str_eq (u.to_string a) (u.to_string b) ≡ (a == b)
  to_string_eq a b =
      ground
        (arith, eq_iff (u.to_string a) (u.to_string b), u.parse-to_string a, u.parse-to_string b)

  -- After Save of the in-memory repository the account is stored under its id, and under every
  -- other id what was stored before.
  pub stored-save_account :
      (order : MapOrder) (acc : Account) (w : World)
      → stored (save_account u order acc w).1 ≡ update (stored w) acc
  unfolding save_account
  stored-save_account order acc w = fun_ext λ id.
      lookup-insert (u.to_string acc.id.value) (u.to_string id.value) acc w.accounts
      ∙ ap (λ t. if t then some acc else stored w id) (to_string_eq acc.id.value id.value)

  -- A service over the in-memory repositories, with no event store, outbox or projector, as in the
  -- tests of internal/app.
  abbrev pub service : MapOrder → Env World → (DomainEvent → Result Payload) → LedgerService World
  service order env marshal = record {
    accounts = account_repository u order;
    transactions = transaction_repository u order;
    event_store = none;
    outbox = none;
    projector = none;
    env = env;
    uuid = u;
    marshal = marshal;
  }

module _ (u : UuidLib) (order : MapOrder) where
  pub find_account_value :
      (id : AccountId) (w : World) (a : Account)
      → ((account_repository u order).find_by_id id w).0 ≡ ok a
      → stored u w id ≡ some a
  unfolding account_repository find_account
  find_account_value id w a h = ground arith

  pub find_account_keeps :
      (id : AccountId) (w : World)
      → stored u ((account_repository u order).find_by_id id w).1 ≡ stored u w
  unfolding account_repository find_account
  find_account_keeps id w = refl

  pub find_all_keeps :
      (w : World) → stored u ((account_repository u order).find_all w).1 ≡ stored u w
  unfolding account_repository find_all_accounts
  find_all_keeps w = refl

  pub save_updates :
      (a : Account) (w : World)
      → ((account_repository u order).save a w).0 ≡ ok tt
      → stored u ((account_repository u order).save a w).1 ≡ update (stored u w) a
  unfolding account_repository
  save_updates a w h = stored-save_account u order a w

  -- Save does not fail.
  pub save_error :
      (a : Account) (w : World) (e : Error)
      → ((account_repository u order).save a w).0 ≡ err e
      → stored u ((account_repository u order).save a w).1 ≡ stored u w
  unfolding account_repository save_account
  save_error a w e h = cc

  pub transactions_keep :
      (t : Transaction) (w : World)
      → stored u ((transaction_repository u order).save t w).1 ≡ stored u w
  unfolding transaction_repository save_transaction
  transactions_keep t w = refl

  -- The services may rely on these repositories, if the clock and the generator leave them alone.
  abbrev pub contract :
      (env : Env World) (marshal : DomainEvent → Result Payload)
      → ((w : World) → stored u (env.now w).1 ≡ stored u w)
      → ((w : World) → stored u (env.new_uuid w).1 ≡ stored u w)
      → Contract (service u order env marshal)
  contract env marshal now_keeps uuid_keeps = record {
    view = stored u;
    find_value = find_account_value;
    find_keeps = find_account_keeps;
    find_all_keeps = find_all_keeps;
    save_updates = save_updates;
    save_error = save_error;
    transactions_keep = transactions_keep;
    outbox_keeps = tt;
    events_keep = tt;
    projector_keeps = tt;
    now_keeps = now_keeps;
    uuid_keeps = uuid_keeps;
  }

  pub find_stored :
      (id : AccountId) (w : World) (a : Account)
      → stored u w id ≡ some a
      → ((account_repository u order).find_by_id id w).0 ≡ ok a
  unfolding account_repository find_account
  find_stored id w a h = rw h

  pub find_missing :
      (id : AccountId) (w : World)
      → stored u w id ≡ none
      → (e : Error) × (((account_repository u order).find_by_id id w).0 ≡ err e)
  unfolding account_repository find_account
  find_missing id w h = (account_not_found, rw h)

  pub save_succeeds : (a : Account) (w : World) → ((account_repository u order).save a w).0 ≡ ok tt
  unfolding account_repository save_account
  save_succeeds a w = refl

  -- What is stored is found, what is not is reported, and every write succeeds.
  abbrev pub reliable :
      (env : Env World) (marshal : DomainEvent → Result Payload)
      (now_keeps : (w : World) → stored u (env.now w).1 ≡ stored u w)
      (uuid_keeps : (w : World) → stored u (env.new_uuid w).1 ≡ stored u w)
      → IsReliable (service u order env marshal) (contract env marshal now_keeps uuid_keeps)
  reliable env marshal now_keeps uuid_keeps = record {
    finds = find_stored;
    misses = find_missing;
    saves = save_succeeds;
  }
