-- ===== src/App/Service/Accounts.antt =====
-- internal/app/ledger_service.go: opening and finding accounts, and emitting events. What a handler
-- has saved before an error stays saved.
use ledger_engine.Prelude.{
  ⊤, String, Option, none, some, List, [], ◌∷◌, ◌<>◌, str_eq, if◌then◌else◌,
}
use ledger_engine.Prelude.Int64.{Int64}
use ledger_engine.Errors.{Result, ok, err}
use ledger_engine.Exec.{Exec, pure, lift, total, wrapping, ◌>>=◌, ◌>>◌}
use ledger_engine.Ledger.Money.{Money, Currency}
use ledger_engine.Ledger.Identifiers.{AccountId, zero_account_id, account_id_string}
use ledger_engine.Ledger.Event.{
  AccountOpenedEvent, DomainEvent, account_opened, event_type, occurred_at, StoredEvent, EventStore,
}
use ledger_engine.Account.{
  Account, AccountType, asset, liability, equity, account_type_string, new_account_with_type,
}
use ledger_engine.App.Commands.{OpenAccountCmd}
use ledger_engine.App.Ports.{OutboxAppender, Projector, LedgerService}

-- The `switch` of OpenAccount: every other text opens an asset account.
unfoldable pub opened_type : String → AccountType
opened_type s =
    if str_eq s "EQUITY" then equity else if str_eq s "LIABILITY" then liability else asset

-- for _, acc := range all { if acc.Name() == name { return acc, nil } }
unfoldable pub find_named : String → List Account → Option Account
find_named name [] = none
find_named name (a ∷ all) = if str_eq a.name name then some a else find_named name all

module _ {S : Type 0} (svc : LedgerService S) where
  open svc use {accounts, transactions, event_store, outbox, projector, env, uuid, marshal}

  unfoldable pub append_to :
      Option (OutboxAppender S)
      → Option (EventStore S)
      → String
      → String
      → Int64
      → List StoredEvent
      → Exec S ⊤
  append_to (some o) _ id type version events = o.append_with_outbox id type version events
  append_to none (some e) id type version events = e.append id type version events
  append_to none none id type version events = pure tt

  unfoldable pub append_event : String → String → Int64 → DomainEvent → Exec S ⊤
  unfolding append_to
  append_event id type version event = do
    payload ← wrapping "marshal event" (lift (marshal event))
    append_to outbox event_store id type version (
        record {
          id = "";
          aggregate_id = "";
          aggregate_type = "";
          event_type = event_type event;
          version = 0;
          payload = payload;
          occurred_at = occurred_at event;
        }
        ∷ [])

  -- The result of a projection is dropped; a projector of nil is not called.
  abbrev pub ignoring : (Projector S → Exec S ⊤) → Option (Projector S) → Exec S ⊤
  ignoring call none s = (ok tt, s)
  ignoring call (some p) s = (ok tt, (call p s).1)

  unfoldable pub open_account : OpenAccountCmd → Exec S Account
  open_account cmd = do
    let acc_type = opened_type cmd.account_type
    acc ← wrapping "open account" (new_account_with_type env cmd.name acc_type cmd.currency)
    wrapping "save account" (accounts.save acc)
    now ← total env.now
    let event : AccountOpenedEvent = record {
      id = "";
      account_id = account_id_string uuid acc.id;
      name = acc.name;
      account_type = account_type_string acc_type;
      currency = acc.currency;
      timestamp = now;
    }
    wrapping "emit account opened"
        (append_event (account_id_string uuid acc.id) "account" 0 (account_opened event))
    ignoring (λ p. p.project_account_opened event) projector
    pure acc

  abbrev pub or_open : Option Account → OpenAccountCmd → Exec S Account
  or_open (some acc) cmd = pure acc
  or_open none cmd = open_account cmd

  unfoldable pub get_or_create_system_account : String → String → Currency → Exec S Account
  get_or_create_system_account name type currency = do
    all ← accounts.find_all
    or_open (find_named name all) (record { name = name; account_type = type; currency = currency })

  unfoldable pub open_equity_account : String → Currency → Exec S Account
  open_equity_account name currency =
      open_account (record { name = name; account_type = "EQUITY"; currency = currency })

  unfoldable pub get_or_create_system_equity : Currency → Exec S Account
  get_or_create_system_equity currency =
      get_or_create_system_account ("System Equity (" <> currency <> ")") "EQUITY" currency

  -- if err != nil { return ledger.AccountID{} }
  abbrev pub id_or_zero : Result Account × S → Result AccountId × S
  id_or_zero (ok acc, s) = (ok acc.id, s)
  id_or_zero (err e, s) = (ok zero_account_id, s)

  unfoldable pub suspense_account_id : Currency → Exec S AccountId
  suspense_account_id currency s =
      id_or_zero (
        get_or_create_system_account ("System Suspense (" <> currency <> ")") "LIABILITY" currency
          s)

  unfoldable pub get_account : AccountId → Exec S Account
  get_account id = accounts.find_by_id id

  unfoldable pub get_balance : AccountId → Exec S Money
  get_balance id = do acc ← wrapping "get balance" (accounts.find_by_id id); pure acc.balance
