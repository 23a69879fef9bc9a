-- ===== src/App/Service/Depositing.antt =====
-- Deposit of internal/app/ledger_service.go: money enters from the equity account of the currency.
use ledger_engine.Prelude.{
  ⊤, true, false, Bool-cases, inl, inr, ap, ◌≡◌, String, [], ◌∷◌, map, arith, ◌<>◌, if◌then◌else◌,
}
use ledger_engine.Prelude.Int64.{Int64, IsInt64, add64}
use ledger_engine.Errors.{Result, ok, err}
use ledger_engine.Exec.{continue, prefixed, pure}
use ledger_engine.Exec.Rules.{Outcome}
use ledger_engine.Ledger.Money.{Currency}
use ledger_engine.Ledger.Identifiers.{AccountId, equals}
use ledger_engine.Ledger.Entry.{debit, credit}
use ledger_engine.Ledger.Transaction.{Transaction}
use ledger_engine.Account.{Account}
use ledger_engine.App.Commands.{RecordTransactionCmd}
use ledger_engine.App.Ports.{LedgerService}
use ledger_engine.App.Contract.{Accounts, Contract}
use ledger_engine.App.Contract.Listing.{is_named, Listing}
use ledger_engine.App.Contract.Effects.{net, Moved, MovedBy, IsSound}
use ledger_engine.App.Service.Accounts.{get_or_create_system_account, get_or_create_system_equity}
use ledger_engine.App.Service.Lookup.{Looked, is_named-MovedBy, FoundBy, get_or_create-FoundBy}
use ledger_engine.App.Service.Recording.{record_transaction, deposit}
use ledger_engine.App.Service.Recording.Effect.{
  requested, Recorded, Stopped, record_transaction-Outcome,
}

-- The name of the equity account of a currency.
abbrev pub equity_name : Currency → String
equity_name currency = "System Equity (" <> currency <> ")"

-- The command that Deposit records, for the equity account that it found.
abbrev deposit_command : AccountId → Int64 → Currency → String → AccountId → RecordTransactionCmd
deposit_command account amount currency description equity = record {
  entries =
      record { account_id = equity; amount = amount; currency = currency; type = debit }
      ∷ record { account_id = account; amount = amount; currency = currency; type = credit }
      ∷ [];
  description = description;
}

-- Outside the equity account the entries come to the deposit.
net_deposit :
    (account : AccountId) (amount : Int64) (currency : Currency) (description : String)
    (equity j : AccountId)
    → IsInt64 amount
    → equals equity j ≡ false
    → net j (map requested (deposit_command account amount currency description equity).entries)
      ≡ (if equals account j then amount else 0)
unfolding add64
net_deposit account amount currency description equity j small apart = ground arith

equals-same : (i j : AccountId) → equals i j ≡ true → i ≡ j
equals-same i j e = ground (arith, e)

-- An account that does not have the name is another one than an account that does.
pub named_apart :
    (name : String) (v : Accounts) (i j : AccountId)
    → is_named name (v i) ≡ true
    → is_named name (v j) ≡ false
    → equals i j ≡ false
named_apart name v i j named unnamed = elim (Bool-cases (equals i j)) [
  | inl same ↦ absurd (cc (named, unnamed, ap v (equals-same i j same)))
  | inr other ↦ other
]

module _ {S : Type 0} (svc : LedgerService S) (c : Contract svc) (account : AccountId)
    (amount : Int64) (currency : Currency) where
  open c use {view}

  -- Every account that does not end with the name of the equity account has moved as the deposit
  -- asks.
  abbrev pub Deposited : Accounts → Accounts → Type 0
  Deposited v v' =
      (j : AccountId)
      → is_named (equity_name currency) (v' j) ≡ false
      → MovedBy (if equals account j then amount else 0) (v j) (v' j)

  recorded-Deposited :
      (description : String) (equity : AccountId) (v v₁ v' : Accounts)
      → IsInt64 amount
      → Looked (equity_name currency) v v₁
      → is_named (equity_name currency) (v₁ equity) ≡ true
      → Moved
          (map requested (deposit_command account amount currency description equity).entries)
          v₁
          v'
      → Deposited v v'
  recorded-Deposited description equity v v₁ v' small looked named moved j unnamed =
      let before = is_named-MovedBy (equity_name currency) _ (v₁ j) (v' j) (moved j) unnamed in
      let apart = named_apart (equity_name currency) v₁ equity j named before in
      rw (← net_deposit account amount currency description equity j small apart)
        (rw (looked.same j before) at (moved j))

  -- How a deposit ends.
  abbrev Ends : Accounts → Result ⊤ × S → Type 0
  Ends v = Outcome (λ _ s'. IsSound (view s') × Deposited v (view s')) (λ s'. IsSound (view s'))

  recording-Ends :
      (description : String) (equity : AccountId) (v : Accounts) (s : S)
      → IsInt64 amount
      → IsSound (view s)
      → Looked (equity_name currency) v (view s)
      → is_named (equity_name currency) (view s equity) ≡ true
      → Ends v (
          continue
            (record_transaction svc (deposit_command account amount currency description equity) s)
            (λ _. pure tt))
  recording-Ends description equity v s small sound looked named =
      of_result
        (record_transaction svc (deposit_command account amount currency description equity) s)
        (record_transaction-Outcome svc c
          (deposit_command account amount currency description equity) s sound)
    where
      of_result :
          (r : Result Transaction × S)
          → Outcome
              (λ tx s'.
                Recorded svc c
                  (deposit_command account amount currency description equity)
                  tx
                  (view s)
                  (view s'))
              (λ s'.
                Stopped svc c
                  (deposit_command account amount currency description equity)
                  (view s)
                  (view s'))
              r
          → Ends v (continue r (λ _. pure tt))
      of_result (ok tx, s') h = (
        h.sound,
        recorded-Deposited description equity v (view s) (view s') small looked named h.moved,
      )
      of_result (err e, s') h = h.sound

  -- For repositories that fulfil the contract of the services and whose FindAll lists stored
  -- accounts, as the in-memory ones do, on a sound ledger, for an amount of 64 bits: Deposit leaves
  -- a sound ledger; and if it succeeds, every account that does not have the name of the equity
  -- account afterwards has its status and identity, and its balance but for the amount added to the
  -- account of the deposit.
  pub deposit-Outcome :
      (l : Listing svc c) (description : String) (s : S)
      → l.Holds s
      → IsInt64 amount
      → IsSound (view s)
      → Outcome
          (λ _ s'. IsSound (view s') × Deposited (view s) (view s'))
          (λ s'. IsSound (view s'))
          (deposit svc account amount currency description s)
  unfolding deposit get_or_create_system_equity
  deposit-Outcome l description s holds small sound =
      of_result (get_or_create_system_account svc (equity_name currency) "EQUITY" currency s)
        (get_or_create-FoundBy svc c l (equity_name currency) "EQUITY" currency s holds)
    where
      of_result :
          (r : Result Account × S)
          → FoundBy svc c (equity_name currency) (view s) r
          → Ends (view s) (
              continue (prefixed "get system equity" r) (λ equity s'.
                continue
                  (record_transaction svc
                    (deposit_command account amount currency description equity.id)
                    s')
                  (λ _. pure tt)))
      of_result (ok a, s') (looked, named) =
          recording-Ends description a.id (view s) s' small (looked.sound sound) looked named
      of_result (err e, s') looked = looked.sound sound
