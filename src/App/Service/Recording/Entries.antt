-- ===== src/App/Service/Recording/Entries.antt =====
-- The loop of RecordTransaction over the entries: what it has done to the accounts when it ends,
-- and when it stops at an error.
use ledger_engine.Prelude.{
  ◌≡◌, refl, sym, ◌∙◌, ap, inl, inr, Bool-cases, some, List, [], ◌∷◌, map, arith, if◌then◌else◌,
}
use ledger_engine.Prelude.Int64.{add64, add64-IsInt64, sub64-IsInt64, add64-neg64, add64-zero}
use ledger_engine.Environment.{Time}
use ledger_engine.Errors.{ok}
use ledger_engine.Exec.Rules.{
  Outcome, Outcome-call, Outcome-prefixed, Outcome-intro, Outcome-continue, Outcome-ok, Outcome-err,
  Outcome-mono,
}
use ledger_engine.Ledger.Money
use ledger_engine.Ledger.Identifiers.{AccountId, equals}
use ledger_engine.Ledger.Entry.{Entry}
use ledger_engine.Ledger.Transaction.Spec.{params_of}
use ledger_engine.Account
use ledger_engine.Account.{Account}
use ledger_engine.Account.Spec.{IsValid, SameIdentity}
use ledger_engine.App.Ports.{LedgerService}
use ledger_engine.App.Contract.{Accounts, Contract, update, found, not_found, saved, not_saved}
use ledger_engine.App.Contract.Effects.{
  signed, MovedBy, Moved, StoppedWithin, IsSound, Moved-none, MovedBy-trans,
}
use ledger_engine.App.Service.Params.{apply_entry}
use ledger_engine.App.Service.Recording.{record_entry, record_entries}

-- An entry adds its signed amount to the balance, and changes nothing else but the time.
pub record Applied (e : Entry) (a b : Account) : Type 0 where
  pub same : SameIdentity a b
  pub valid : IsValid b
  pub moved : b.balance.amount ≡ add64 a.balance.amount (signed e.type e.amount.amount)
  pub status : b.status ≡ a.status

pub apply_entry-Applied :
    (now : Time) (a b : Account) (e : Entry)
    → IsValid a
    → apply_entry now a e ≡ ok b
    → Applied e a b
unfolding apply_entry Account.debit Account.credit Money.add Money.subtract
apply_entry-Applied now a b e v h = ground (
  arith,
  add64-neg64 a.balance.amount e.amount.amount,
  add64-zero a.balance.amount v.in_range,
  add64-IsInt64 a.balance.amount e.amount.amount,
  sub64-IsInt64 a.balance.amount e.amount.amount,
)

-- What a round that succeeds has done.
pub record Rounded (e : Entry) (v v' : Accounts) : Type 0 where
  pub before : Account
  pub after : Account
  pub time : Time
  pub was_stored : v e.account_id ≡ some before
  pub applied : apply_entry time before e ≡ ok after
  pub stored : v' ≡ update v after

module _ {S : Type 0} (svc : LedgerService S) (c : Contract svc) where
  open c use {view}

  -- One round finds the account, applies the entry and saves it, or changes no account.
  pub record_entry-Outcome :
      (e : Entry) (s : S)
      → Outcome
          (λ _ s'. Rounded e (view s) (view s'))
          (λ s'. view s' ≡ view s)
          (record_entry svc e s)
  unfolding record_entry
  record_entry-Outcome e s =
      Outcome-call _ _ _ (svc.accounts.find_by_id e.account_id s) _
        (λ a s₁ p.
          let (is_there, same) = found c e.account_id s p in
          let now = (svc.env.now s₁).0 in
          let s₂ = (svc.env.now s₁).1 in
          let kept : view s₂ ≡ view s = c.now_keeps s₁ ∙ same in
          Outcome-call _ _ _ (apply_entry now a e, s₂) _
            (λ b s₃ q.
              let here : view s₃ ≡ view s = ap (λ r. view r.1) (sym q) ∙ kept in
              Outcome-prefixed _ _ _ (svc.accounts.save b s₃) (
                Outcome-intro _ _ (svc.accounts.save b s₃)
                  (λ _ s₄ r. record {
                    before = a;
                    after = b;
                    time = now;
                    was_stored = is_there;
                    applied = ap (λ x. x.0) q;
                    stored = saved c b s₃ r ∙ ap (λ v. update v b) here;
                  })
                  (λ x s₄ r. not_saved c b s₃ r ∙ here)))
            (λ x s₃ q. ap (λ r. view r.1) (sym q) ∙ kept))
        (λ x s₁ p. not_found c e.account_id s p)

module _ {e : Entry} {v v' : Accounts} (r : Rounded e v v') (sound : IsSound v) where
  Applied-MovedBy : Applied e r.before r.after
  Applied-MovedBy =
      apply_entry-Applied r.time r.before r.after e (sound.at e.account_id r.before r.was_stored).1
        r.applied

  after_id : r.after.id ≡ e.account_id
  after_id = Applied-MovedBy.same.id ∙ (sound.at e.account_id r.before r.was_stored).0

  Rounded-IsSound : IsSound v'
  Rounded-IsSound = record {
    at = λ j x p.
        let q : update v r.after j ≡ some x = ap (λ (f : Accounts). f j) (sym r.stored) ∙ p in
        ground (arith, Applied-MovedBy, after_id, sound.at j x, q);
  }

  Rounded-MovedBy :
      (j : AccountId)
      → MovedBy (if equals e.account_id j then signed e.type e.amount.amount else 0) (v j) (v' j)
  Rounded-MovedBy j = elim (Bool-cases (equals e.account_id j)) [
    | inl here ↦
        let at_j : e.account_id ≡ j = ground arith in
        let was : v j ≡ some r.before = rw (← at_j) r.was_stored in
        let is : v' j ≡ some r.after = rw r.stored (ground (arith, after_id)) in
        rw (here, was, is) (Applied-MovedBy.same, Applied-MovedBy.moved, Applied-MovedBy.status)
    | inr elsewhere ↦
        let same : v' j ≡ v j = rw r.stored (ground (arith, after_id)) in
        rw (elsewhere, same) (Moved-none sound j)
  ]

module _ {S : Type 0} (svc : LedgerService S) (c : Contract svc) where
  open c use {view}

  -- On a sound ledger the loop over the entries, if it succeeds, moves every account by the net of
  -- the entries on it; if it fails, the entries before some point have had that effect, and the
  -- others none. Either way the ledger stays sound.
  pub record_entries-Outcome :
      (es : List Entry) (s : S)
      → IsSound (view s)
      → Outcome
          (λ _ s'. IsSound (view s') × Moved (map params_of es) (view s) (view s'))
          (λ s'. IsSound (view s') × StoppedWithin (map params_of es) (view s) (view s'))
          (record_entries svc es s)
  unfolding record_entries
  record_entries-Outcome [] s sound = (sound, Moved-none sound)
  record_entries-Outcome (e ∷ es) s sound =
      Outcome-continue _ _ (record_entry svc e s) (λ _. record_entries svc es)
        (λ _ s₁ p.
          let r = Outcome-ok _ _ (record_entry svc e s) p (record_entry-Outcome svc c e s) in
          let step = Rounded-MovedBy r sound in
          Outcome-mono _ _ _ _ (record_entries svc es s₁)
            (λ _ s' h.
              (h.0, λ j. MovedBy-trans _ _ (view s j) (view s₁ j) (view s' j) (step j) (h.1 j)))
            (λ s' h. (
              h.0,
              record {
                done = params_of e ∷ h.1.done;
                left = h.1.left;
                split = ap (λ l. params_of e ∷ l) h.1.split;
                moved = λ j.
                    MovedBy-trans _ _ (view s j) (view s₁ j) (view s' j) (step j) (h.1.moved j);
              },
            ))
            (record_entries-Outcome es s₁ (Rounded-IsSound r sound)))
        (λ x s₁ p.
          let same = Outcome-err _ _ (record_entry svc e s) p (record_entry-Outcome svc c e s) in
          rw same (
            sound,
            record {
              done = [];
              left = map params_of (e ∷ es);
              split = refl;
              moved = Moved-none sound;
            },
          ))
