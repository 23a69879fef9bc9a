-- ===== src/App/Service/Recording/Atomicity.antt =====
-- RecordTransaction saves each account as soon as its entry is applied: what is left where a later
-- entry fails.
use ledger_engine.Prelude.{◌≡◌, ◌≢◌, refl, ◌∙◌, ap, inr, none, some, [], ◌∷◌, arith, ◌<>◌, false}
use ledger_engine.Prelude.Int64.{is_negative, sub64}
use ledger_engine.Environment.{Time}
use ledger_engine.Errors.{Error, Result, ok, err, wrap}
use ledger_engine.Ledger.Identifiers.{AccountId, account_id_string}
use ledger_engine.Ledger.Entry.{Entry, debit}
use ledger_engine.Account.{Account}
use ledger_engine.Account.Spec.{IsValid, CanMove, debited}
use ledger_engine.Account.Balance.{debit_iff}
use ledger_engine.App.Ports.{LedgerService}
use ledger_engine.App.Contract.{update, Contract}
use ledger_engine.App.Service.Params.{apply_entry}
use ledger_engine.App.Service.Recording.{record_entry, record_entries}

-- The result is known, and the state is what it is.
with_state : {A S : Type 0} (r : Result A × S) {x : Result A} → r.0 ≡ x → r ≡ (x, r.1)
with_state r e = λ i. (e i, r.1)

applied :
    (now : Time) (a : Account) (e : Entry)
    → IsValid a
    → e.type ≡ debit
    → CanMove a e.amount
    → is_negative (sub64 a.balance.amount e.amount.amount) ≡ false
    → apply_entry now a e ≡ ok (debited now a e.amount)
unfolding apply_entry
applied now a e valid is_debit can covered =
    rw is_debit
      ((debit_iff now a (debited now a e.amount) e.amount valid).1 (can, inr covered, refl))

module _ {S : Type 0} (svc : LedgerService S) (c : Contract svc) where
  open c use {view}

  -- A repository whose calls succeed where they can: what is stored is found, what is not is
  -- reported with an error, and every write succeeds.
  pub record IsReliable : Type 0 where
    pub finds :
        (id : AccountId) (s : S) (a : Account)
        → view s id ≡ some a
        → (svc.accounts.find_by_id id s).0 ≡ ok a
    pub misses :
        (id : AccountId) (s : S)
        → view s id ≡ none
        → (e : Error) × ((svc.accounts.find_by_id id s).0 ≡ err e)
    pub saves : (a : Account) (s : S) → (svc.accounts.save a s).0 ≡ ok tt

module _ {S : Type 0} {svc : LedgerService S} (c : Contract svc) (reliable : IsReliable svc c) where
  open c use {view}

  -- A round for a stored account whose entry can be applied succeeds.
  record_entry-ok :
      (e : Entry) (s : S) (a : Account) (b : Time → Account)
      → view s e.account_id ≡ some a
      → ((now : Time) → apply_entry now a e ≡ ok (b now))
      → (s' : S) × (now : Time) × (record_entry svc e s ≡ (ok tt, s'))
        × (view s' ≡ update (view s) (b now))
  unfolding record_entry
  record_entry-ok e s a b here applies =
      let r₁ = svc.accounts.find_by_id e.account_id s in
      let p : r₁ ≡ (ok a, r₁.1) = with_state r₁ (reliable.finds e.account_id s a here) in
      let now = (svc.env.now r₁.1).0 in
      let s₂ = (svc.env.now r₁.1).1 in
      let r₃ = svc.accounts.save (b now) s₂ in
      let q : r₃ ≡ (ok tt, r₃.1) = with_state r₃ (reliable.saves (b now) s₂) in
      let same : view s₂ ≡ view s = c.now_keeps r₁.1 ∙ c.find_keeps e.account_id s in
      (
        r₃.1,
        now,
        rw (p, applies now, q),
        c.save_updates (b now) s₂ (reliable.saves (b now) s₂) ∙ ap (λ v. update v (b now)) same,
      )

  -- A round for an account that is not stored fails, and changes none.
  record_entry-missing :
      (e : Entry) (s : S)
      → view s e.account_id ≡ none
      → (x : Error) × ((record_entry svc e s).0 ≡ err x) × (view (record_entry svc e s).1 ≡ view s)
  unfolding record_entry
  record_entry-missing e s gone =
      let r = svc.accounts.find_by_id e.account_id s in
      let (x, failed) = reliable.misses e.account_id s gone in
      let p : r ≡ (err x, r.1) = with_state r failed in
      (
        wrap ("find account " <> account_id_string svc.uuid e.account_id) x,
        rw p,
        rw p (c.find_keeps e.account_id s),
      )

  -- With a repository whose calls succeed where they can: of a debit that the account of the first
  -- entry covers, and a second entry whose account is not stored and is another, the loop over the
  -- entries fails, and the debit stays stored.
  pub record_entries_keeps_debit :
      (e₁ e₂ : Entry) (s : S) (a : Account)
      → view s e₁.account_id ≡ some a
      → IsValid a
      → e₁.type ≡ debit
      → CanMove a e₁.amount
      → is_negative (sub64 a.balance.amount e₁.amount.amount) ≡ false
      → a.id ≢ e₂.account_id
      → view s e₂.account_id ≡ none
      → (x : Error) × (now : Time) × ((record_entries svc (e₁ ∷ e₂ ∷ []) s).0 ≡ err x)
        × (view (record_entries svc (e₁ ∷ e₂ ∷ []) s).1 ≡ update (view s) (debited now a e₁.amount))
  unfolding record_entries
  record_entries_keeps_debit e₁ e₂ s a here valid is_debit can covered apart gone =
      let applies : (now : Time) → apply_entry now a e₁ ≡ ok (debited now a e₁.amount) =
        λ now. applied now a e₁ valid is_debit can covered in
      let (s', now, run, stored) =
        record_entry-ok e₁ s a (λ now. debited now a e₁.amount) here applies in
      let still_gone : view s' e₂.account_id ≡ none = rw stored (ground arith) in
      let (x, failed, same) = record_entry-missing e₂ s' still_gone in
      let r = record_entry svc e₂ s' in
      let q : r ≡ (err x, r.1) = with_state r failed in
      (x, now, rw (run, q), rw (run, q) (same ∙ stored))
