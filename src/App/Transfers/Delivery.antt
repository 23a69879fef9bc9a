-- ===== src/App/Transfers/Delivery.antt =====
-- Execute of internal/app/transfer_service.go where it returns no error: source and destination.
use ledger_engine.Prelude.{
  ◌≡◌, refl, Option, none, some, List, inl, inr, arith, if◌then◌else◌, false,
}
use ledger_engine.Prelude.Int64.{Int64, add64, neg64}
use ledger_engine.Errors.{Error}
use ledger_engine.Ledger.Identifiers.{AccountId, zero_account_id, equals}
use ledger_engine.Ledger.Entry.{EntryParams}
use ledger_engine.Transfer.{completed, Transfer}
use ledger_engine.App.Commands.{TransferCmd}
use ledger_engine.App.Ports.{LedgerService}
use ledger_engine.App.Contract.{Accounts, Contract}
use ledger_engine.App.Contract.Listing.{is_named, Listing}
use ledger_engine.App.Contract.Effects.{net, MovedBy, MovedBy-trans, IsSound}
use ledger_engine.App.Service.Lookup.{is_named-MovedBy, suspense_name}
use ledger_engine.App.Service.Depositing.{named_apart}
use ledger_engine.App.Transfers.{execute}
use ledger_engine.App.Transfers.Legs.{hop_out, hop_in, Verdict, LegDone}
use ledger_engine.App.Transfers.Effect.{execute-Verdict}

-- What a transfer is to add to an account that is no suspense account.
abbrev pub transferred : TransferCmd → AccountId → Int64
transferred cmd j =
    add64 (if equals cmd.from_account_id j then neg64 cmd.amount else 0)
      (if equals cmd.to_account_id j then cmd.amount else 0)

-- Outside the suspense accounts the two legs come to the transfer.
net_legs :
    (cmd : TransferCmd) (first second j : AccountId)
    → equals first j ≡ false
    → equals second j ≡ false
    → add64 (net j (hop_out cmd first)) (net j (hop_in cmd second)) ≡ transferred cmd j
unfolding add64 neg64
net_legs cmd first second j h k = ground arith

module _ {S : Type 0} (svc : LedgerService S) (c : Contract svc) (cmd : TransferCmd) where
  open c use {view}

  -- Every account that does not end with the name of the suspense account, and does not have the
  -- zero id, has moved as the transfer asks.
  abbrev pub Delivered : Accounts → Accounts → Type 0
  Delivered v v' =
      (j : AccountId)
      → equals zero_account_id j ≡ false
      → is_named (suspense_name cmd.currency) (v' j) ≡ false
      → MovedBy (transferred cmd j) (v j) (v' j)

  -- The suspense account of a leg is not such an account.
  leg_apart :
      (hops : AccountId → List EntryParams) {v v' : Accounts} (l : LegDone svc c cmd hops v v')
      (j : AccountId)
      → equals zero_account_id j ≡ false
      → is_named (suspense_name cmd.currency) (l.between j) ≡ false
      → equals l.suspense j ≡ false
  leg_apart hops l j nonzero unnamed = elim l.found.origin [
    | inl zero ↦ rw zero nonzero
    | inr named ↦ named_apart (suspense_name cmd.currency) l.between l.suspense j named unnamed
  ]

  leg-MovedBy :
      (hops : AccountId → List EntryParams) {v v' : Accounts} (l : LegDone svc c cmd hops v v')
      (j : AccountId)
      → equals zero_account_id j ≡ false
      → is_named (suspense_name cmd.currency) (v' j) ≡ false
      → (is_named (suspense_name cmd.currency) (v j) ≡ false)
        × (equals l.suspense j ≡ false)
        × MovedBy (net j (hops l.suspense)) (v j) (v' j)
  leg-MovedBy hops {v} {v'} l j nonzero unnamed =
      let apart = is_named-MovedBy _ _ (l.between j) (v' j) (l.moved j) unnamed in
      let same = l.found.looked.same j apart in
      (rw same at apart, leg_apart hops l j nonzero apart, rw same at (l.moved j))

  legs-Delivered :
      (v v₁ v' : Accounts)
      → LegDone svc c cmd (hop_out cmd) v v₁
      → LegDone svc c cmd (hop_in cmd) v₁ v'
      → Delivered v v'
  legs-Delivered v v₁ v' out inn j nonzero unnamed =
      let (unnamed₁, q, into) = leg-MovedBy (hop_in cmd) inn j nonzero unnamed in
      let (_, p, from) = leg-MovedBy (hop_out cmd) out j nonzero unnamed₁ in
      rw (← net_legs cmd out.suspense inn.suspense j p q)
        (MovedBy-trans _ _ (v j) (v₁ j) (v' j) from into)

  of_verdict :
      (v v' : Accounts) (t : Option Transfer) (e : Option Error)
      → e ≡ none
      → Verdict svc c cmd v v' t e
      → (saga : Transfer) × (t ≡ some saga) × (saga.state ≡ completed) × Delivered v v'
  of_verdict v v' t e h (Verdict.rejected x same) = cc
  of_verdict v v' t e h (Verdict.source_failed saga x st l) = cc
  of_verdict v v' t e h (Verdict.finished saga v₁ st out inn) =
      (saga, refl, st, legs-Delivered v v₁ v' out inn)
  of_verdict v v' t e h (Verdict.undone saga x v₁ v₂ st out inn back) = cc
  of_verdict v v' t e h (Verdict.stuck saga x v₁ v₂ st out inn back) = cc

module _ {S : Type 0} (svc : LedgerService S) (c : Contract svc) where
  open c use {view}

  -- For repositories that fulfil the contract of the services and whose FindAll lists stored
  -- accounts, as the in-memory ones do, on a sound ledger: if Execute returns no error, it returns
  -- a transfer in state COMPLETED, and every account that does not have the name of the suspense
  -- account afterwards, nor the zero id, has moved as the transfer asks: the amount is taken off
  -- the balance of the source and added to the destination's, and any other balance, and every
  -- status and identity, is as before.
  pub execute-Delivered :
      (l : Listing svc c) (cmd : TransferCmd) (s : S)
      → l.Holds s
      → IsSound (view s)
      → (execute svc cmd s).1 ≡ none
      → (saga : Transfer) × ((execute svc cmd s).0 ≡ some saga)
        × (saga.state ≡ completed)
        × Delivered svc c cmd (view s) (view (execute svc cmd s).2)
  execute-Delivered l cmd s holds sound no_error =
      of_verdict svc c cmd (view s) (view (execute svc cmd s).2) (execute svc cmd s).0
        (execute svc cmd s).1 no_error (execute-Verdict svc c l cmd s holds sound).1
