-- ===== src/App/Contract.antt =====
-- What the services rely on of the repositories that they are given: a view of the stored accounts
-- that FindByID reads, that Save of the accounts updates, and that nothing else changes. A call may
-- fail, and then it has not changed the view.
mod View
pub use View.{Accounts, update}
pub mod Effects
pub mod Conservation
pub mod Listing
use ledger_engine.Prelude.{⊤, ◌≡◌, ap, Option, none, some, List}
use ledger_engine.Errors.{Error, Result, ok, err}
use ledger_engine.Exec.{Exec, total}
use ledger_engine.Ledger.Identifiers.{AccountId}
use ledger_engine.Ledger.Event.{EventStore}
use ledger_engine.Account.{Account}
use ledger_engine.App.Ports.{OutboxAppender, Projector, LedgerService}

module _ {S : Type 0} (view : S → Accounts) where
  abbrev pub KeepsView : {A : Type 0} → Exec S A → Type 0
  KeepsView m = (s : S) → view (m s).1 ≡ view s

  abbrev pub OutboxKeeps : Option (OutboxAppender S) → Type 0
  OutboxKeeps none = ⊤
  OutboxKeeps (some o) =
      (id type : _) (version : _) (events : _)
      → KeepsView (o.append_with_outbox id type version events)

  abbrev pub EventsKeep : Option (EventStore S) → Type 0
  EventsKeep none = ⊤
  EventsKeep (some e) =
      (id type : _) (version : _) (events : _) → KeepsView (e.append id type version events)

  abbrev pub ProjectorKeeps : Option (Projector S) → Type 0
  ProjectorKeeps none = ⊤
  ProjectorKeeps (some p) =
      ((event : _) → KeepsView (p.project_account_opened event))
      × ((event : _) → KeepsView (p.project_transaction_recorded event))

pub record Contract {S : Type 0} (svc : LedgerService S) : Type 0 where
  pub view : S → Accounts
  pub find_value :
      (id : AccountId) (s : S) (a : Account)
      → (svc.accounts.find_by_id id s).0 ≡ ok a
      → view s id ≡ some a
  pub find_keeps : (id : AccountId) → KeepsView view (svc.accounts.find_by_id id)
  pub find_all_keeps : KeepsView view svc.accounts.find_all
  pub save_updates :
      (a : Account) (s : S)
      → (svc.accounts.save a s).0 ≡ ok tt
      → view (svc.accounts.save a s).1 ≡ update (view s) a
  pub save_error :
      (a : Account) (s : S) (e : Error)
      → (svc.accounts.save a s).0 ≡ err e
      → view (svc.accounts.save a s).1 ≡ view s
  pub transactions_keep : (t : _) → KeepsView view (svc.transactions.save t)
  pub outbox_keeps : OutboxKeeps view svc.outbox
  pub events_keep : EventsKeep view svc.event_store
  pub projector_keeps : ProjectorKeeps view svc.projector
  pub now_keeps : (s : S) → view (svc.env.now s).1 ≡ view s
  pub uuid_keeps : (s : S) → view (svc.env.new_uuid s).1 ≡ view s

-- The same laws, of a call whose result and state are known.
module _ {S : Type 0} {svc : LedgerService S} (c : Contract svc) where
  open c use {view}

  pub found :
      (id : AccountId) (s : S) {a : Account} {s' : S}
      → svc.accounts.find_by_id id s ≡ (ok a, s')
      → (view s id ≡ some a) × (view s' ≡ view s)
  found id s {a} e = (c.find_value id s a (ap (λ r. r.0) e), rw e at (c.find_keeps id s))

  pub not_found :
      (id : AccountId) (s : S) {x : Error} {s' : S}
      → svc.accounts.find_by_id id s ≡ (err x, s')
      → view s' ≡ view s
  not_found id s e = rw e at (c.find_keeps id s)

  pub saved :
      (a : Account) (s : S) {s' : S}
      → svc.accounts.save a s ≡ (ok tt, s')
      → view s' ≡ update (view s) a
  saved a s e = rw e at (c.save_updates a s (ap (λ r. r.0) e))

  pub not_saved :
      (a : Account) (s : S) {x : Error} {s' : S}
      → svc.accounts.save a s ≡ (err x, s')
      → view s' ≡ view s
  not_saved a s {x} e = rw e at (c.save_error a s x (ap (λ r. r.0) e))
