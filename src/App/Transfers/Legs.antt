-- ===== src/App/Transfers/Legs.antt =====
-- The legs of a transfer of internal/app/transfer_service.go, and the ways in which it ends, said
-- without its commands.
use ledger_engine.Prelude.{◌≡◌, Option, none, some, List, [], ◌∷◌}
use ledger_engine.Errors.{Error}
use ledger_engine.Ledger.Identifiers.{AccountId}
use ledger_engine.Ledger.Entry.{debit, credit, EntryParams}
use ledger_engine.Transfer.{completed, failed, compensated, Transfer}
use ledger_engine.App.Commands.{TransferCmd}
use ledger_engine.App.Ports.{LedgerService}
use ledger_engine.App.Contract.{Accounts, Contract}
use ledger_engine.App.Contract.Effects.{Moved, StoppedWithin}
use ledger_engine.App.Service.Lookup.{Found, suspense_name}

-- The two entries that take the amount of a transfer from one account and give it to another.
abbrev pub hop : TransferCmd → AccountId → AccountId → List EntryParams
hop cmd giver taker =
    record {
      account_id = giver;
      amount = record { amount = cmd.amount; currency = cmd.currency };
      type = debit;
    }
    ∷ record {
      account_id = taker;
      amount = record { amount = cmd.amount; currency = cmd.currency };
      type = credit;
    }
    ∷ []

-- From the source to a suspense account, from one to the destination, and back to the source.
abbrev pub hop_out : TransferCmd → AccountId → List EntryParams
hop_out cmd suspense = hop cmd cmd.from_account_id suspense

abbrev pub hop_in : TransferCmd → AccountId → List EntryParams
hop_in cmd suspense = hop cmd suspense cmd.to_account_id

abbrev pub hop_back : TransferCmd → AccountId → List EntryParams
hop_back cmd suspense = hop cmd suspense cmd.from_account_id

module _ {S : Type 0} (svc : LedgerService S) (c : Contract svc) (cmd : TransferCmd) where
  -- A leg of the saga that was recorded: the suspense account was looked up, and then the entries for it
  -- moved every account by their net.
  pub record LegDone (hops : AccountId → List EntryParams) (v v' : Accounts) : Type 0 where
    pub suspense : AccountId
    pub between : Accounts
    pub found : Found svc c (suspense_name cmd.currency) v between suspense
    pub moved : Moved (hops suspense) between v'

  -- A leg that failed: of the entries, some first ones may have been applied.
  pub record LegStopped (hops : AccountId → List EntryParams) (v v' : Accounts) : Type 0 where
    pub suspense : AccountId
    pub between : Accounts
    pub found : Found svc c (suspense_name cmd.currency) v between suspense
    pub within : StoppedWithin (hops suspense) between v'

  -- How a transfer ends. `v` are the stored accounts before, and `v'` those after.
  pub data Verdict (v v' : Accounts) : Option Transfer → Option Error → Type 0 where
    rejected : (e : Error) → v' ≡ v → Verdict v v' none (some e)
    source_failed :
        (t : Transfer) (e : Error)
        → t.state ≡ failed
        → LegStopped (hop_out cmd) v v'
        → Verdict v v' (some t) (some e)
    finished :
        (t : Transfer) (v₁ : Accounts)
        → t.state ≡ completed
        → LegDone (hop_out cmd) v v₁
        → LegDone (hop_in cmd) v₁ v'
        → Verdict v v' (some t) none
    undone :
        (t : Transfer) (e : Error) (v₁ v₂ : Accounts)
        → t.state ≡ compensated
        → LegDone (hop_out cmd) v v₁
        → LegStopped (hop_in cmd) v₁ v₂
        → LegDone (hop_back cmd) v₂ v'
        → Verdict v v' (some t) (some e)
    stuck :
        (t : Transfer) (e : Error) (v₁ v₂ : Accounts)
        → t.state ≡ failed
        → LegDone (hop_out cmd) v v₁
        → LegStopped (hop_in cmd) v₁ v₂
        → LegStopped (hop_back cmd) v₂ v'
        → Verdict v v' (some t) (some e)
