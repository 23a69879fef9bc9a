-- ===== src/App/Service/Opening.antt =====
-- What OpenAccount of internal/app/ledger_service.go does to the stored accounts.
use ledger_engine.Prelude.{
  ◌≡◌, ◌≢◌, refl, arith, eq_iff, ◌∙◌, ap, ◌⊎◌, inl, inr, String, Bool-cases, str_eq,
}
use ledger_engine.Errors.{Result}
use ledger_engine.Exec.{pure, lift, prefixed, continue, ◌>>◌}
use ledger_engine.Exec.Rules.{Outcome, Outcome-call, Outcome-continue, Outcome-ok}
use ledger_engine.Ledger.Money.{Currency, new_money}
use ledger_engine.Ledger.Identifiers.{account_id_string, generate_account_id}
use ledger_engine.Environment.{Time}
use ledger_engine.Ledger.Event.{AccountOpenedEvent, account_opened}
use ledger_engine.Account.{Account, account_type_string, AccountType, active, new_account_with_type}
use ledger_engine.Account.Spec.{IsValid}
use ledger_engine.Account.Invariant.{new_account-IsValid}
use ledger_engine.App.Commands.{OpenAccountCmd}
use ledger_engine.App.Ports.{LedgerService}
use ledger_engine.App.Contract.{Accounts, Contract, KeepsView, update, saved, not_saved}
use ledger_engine.App.Service.Accounts.{ignoring, append_event, opened_type, open_account}
use ledger_engine.App.Service.Recording.Publishing.{
  view-continue, append_event-keeps, project_account_opened-keeps,
}

-- The type that a command asks for: EQUITY and LIABILITY by name, and with any other text ASSET.
pub record IsTyped (text : String) (type : AccountType) : Type 0 where
  pub equity : text ≡ "EQUITY" → type ≡ AccountType.equity
  pub liability : text ≡ "LIABILITY" → type ≡ AccountType.liability
  pub asset : text ≢ "EQUITY" → text ≢ "LIABILITY" → type ≡ AccountType.asset

opened_type-IsTyped : (text : String) → IsTyped text (opened_type text)
unfolding opened_type
opened_type-IsTyped text = record {
  equity = λ e. rw e refl;
  liability = λ e. rw e refl;
  asset = λ p q. ground (arith, eq_iff text "EQUITY", eq_iff text "LIABILITY");
}

-- A new account for the command: valid, active, with a balance of zero.
pub record IsNew (cmd : OpenAccountCmd) (a : Account) : Type 0 where
  pub valid : IsValid a
  pub zero : a.balance.amount ≡ 0
  pub status : a.status ≡ active
  pub name : a.name ≡ cmd.name
  pub type : IsTyped cmd.account_type a.type
  pub currency : a.currency ≡ cmd.currency

-- A call that failed may have stored the account: only what comes after may have failed.
pub record MayHaveOpened (cmd : OpenAccountCmd) (v v' : Accounts) : Type 0 where
  pub outcome : (v' ≡ v) ⊎ ((a : Account) × IsNew cmd a × (v' ≡ update v a))

module _ {S : Type 0} (svc : LedgerService S) (c : Contract svc) where
  open c use {view}

  new_account-keeps :
      (name : String) (type : AccountType) (currency : Currency)
      → KeepsView view (new_account_with_type svc.env name type currency)
  unfolding new_account_with_type new_money generate_account_id
  new_account-keeps name type currency s = elim (Bool-cases (str_eq name "")) [
    | inl e ↦ rw e
    | inr e ↦ rw e (
        view-continue view (lift (new_money 0 currency) s) _
          (λ b s'. c.uuid_keeps (svc.env.now s').1 ∙ c.now_keeps s'))
  ]

  abbrev opened_event : OpenAccountCmd → Account → Time → AccountOpenedEvent
  opened_event cmd a now = record {
    id = "";
    account_id = account_id_string svc.uuid a.id;
    name = a.name;
    account_type = account_type_string (opened_type cmd.account_type);
    currency = a.currency;
    timestamp = now;
  }

  -- What follows the write of the account.
  module _ (cmd : OpenAccountCmd) (v : Accounts) (a : Account) (s : S) where
    abbrev emitting : Result Account × S
    emitting =
        continue
          (prefixed "emit account opened" (
            append_event svc (account_id_string svc.uuid a.id) "account" 0
              (account_opened (opened_event cmd a (svc.env.now s).0)) (svc.env.now s).1))
          (λ _.
            ignoring svc (λ p. p.project_account_opened (opened_event cmd a (svc.env.now s).0))
              svc.projector
            >> pure a)

    emit :
        IsNew cmd a
        → view s ≡ update v a
        → Outcome
            (λ b s'. IsNew cmd b × (view s' ≡ update v b))
            (λ s'. MayHaveOpened cmd v (view s'))
            emitting
    emit is_new stored =
        let event = opened_event cmd a (svc.env.now s).0 in
        let id = account_id_string svc.uuid a.id in
        let start = (svc.env.now s).1 in
        let appended = append_event svc id "account" 0 (account_opened event) start in
        let keeps = append_event-keeps svc c id "account" 0 (account_opened event) start in
        Outcome-call _ _ "emit account opened" appended _
          (λ _ s₁ p.
            let here : view s₁ ≡ update v a = (rw p at keeps) ∙ c.now_keeps s ∙ stored in
            let projected = ignoring svc (λ p. p.project_account_opened event) svc.projector s₁ in
            let kept = project_account_opened-keeps svc c event s₁ in
            Outcome-continue _ _ projected _ (λ _ s₂ q. (is_new, (rw q at kept) ∙ here))
              (λ x s₂ q. record { outcome = inr (a, is_new, (rw q at kept) ∙ here) }))
          (λ x s₁ p. record { outcome = inr (a, is_new, (rw p at keeps) ∙ c.now_keeps s ∙ stored) })

  -- For repositories that fulfil the contract of the services, as the in-memory ones do: if
  -- OpenAccount succeeds, it returns a valid, active account of the command's name and currency
  -- with a balance of zero, of type EQUITY or LIABILITY where the command says so and of type ASSET
  -- for any other text, and has stored it and nothing else. If it fails, the accounts
  -- are as before, or such an account has been stored all the same.
  pub open_account-Outcome :
      (cmd : OpenAccountCmd) (s : S)
      → Outcome
          (λ a s'. IsNew cmd a × (view s' ≡ update (view s) a))
          (λ s'. MayHaveOpened cmd (view s) (view s'))
          (open_account svc cmd s)
  unfolding open_account
  open_account-Outcome cmd s =
      let type = opened_type cmd.account_type in
      let creation = new_account_with_type svc.env cmd.name type cmd.currency s in
      let keeps = new_account-keeps cmd.name type cmd.currency s in
      let made = new_account-IsValid svc.env cmd.name type cmd.currency s in
      Outcome-call _ _ "open account" creation _
        (λ a s₁ p.
          let (valid, zero, status, name, ty, currency) = Outcome-ok _ _ creation p made in
          let is_new : IsNew cmd a = record {
            valid = valid;
            zero = zero;
            status = status;
            name = name;
            type = rw ty (opened_type-IsTyped cmd.account_type);
            currency = currency;
          } in
          let here : view s₁ ≡ view s = rw p at keeps in
          Outcome-call _ _ "save account" (svc.accounts.save a s₁) _
            (λ _ s₂ q.
              let stored = saved c a s₁ q ∙ ap (λ v. update v a) here in
              emit cmd (view s) a s₂ is_new stored)
            (λ x s₂ q. record { outcome = inl (not_saved c a s₁ q ∙ here) }))
        (λ x s₁ p. record { outcome = inl (rw p at keeps) })
