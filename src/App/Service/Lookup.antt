-- ===== src/App/Service/Lookup.antt =====
-- What looking a system account up by its name, and opening it if need be, does to the stored
-- accounts, and which id it returns.
use ledger_engine.Prelude.{
  Bool-cases, true, false, str_eq, eq_iff, ◌≡◌, sym, refl, ◌⊎◌, inl, inr, String, Option, none,
  some, List, [], ◌∷◌, arith, ◌<>◌,
}
use mathlib.Core.List.{Mem, Memᴰ}
use mathlib.Core.Logic.{∥∥₁_map}
use ledger_engine.Errors.{Result, ok, err}
use ledger_engine.Exec.{continue}
use ledger_engine.Exec.Rules.{Outcome}
use ledger_engine.Prelude.Int64.{Int64}
use ledger_engine.Ledger.Money.{Currency}
use ledger_engine.Ledger.Identifiers.{AccountId, zero_account_id}
use ledger_engine.Account.{Account}
use ledger_engine.Account.Spec.{IsValid}
use ledger_engine.App.Commands.{OpenAccountCmd}
use ledger_engine.App.Ports.{LedgerService}
use ledger_engine.App.Contract.{Accounts, Contract, update}
use ledger_engine.App.Contract.Listing.{is_named, Listing}
use ledger_engine.App.Contract.Effects.{MovedBy, IsSound, IsSound-update}
use ledger_engine.App.Service.Accounts.{
  or_open, id_or_zero, find_named, open_account, get_or_create_system_account, suspense_account_id,
}
use ledger_engine.App.Service.Opening.{IsNew, MayHaveOpened, open_account-Outcome}

-- The accounts that do not have the name afterwards are what they were.
pub record Looked (name : String) (v v' : Accounts) : Type 0 where
  pub same : (j : AccountId) → is_named name (v' j) ≡ false → v' j ≡ v j
  pub sound : IsSound v → IsSound v'

Looked-none : {name : String} {v v' : Accounts} → v' ≡ v → Looked name v v'
Looked-none e = rw e (record { same = λ j h. refl; sound = λ h. h })

Looked-new :
    {name : String} {v v' : Accounts} (a : Account)
    → IsValid a
    → a.name ≡ name
    → v' ≡ update v a
    → Looked name v v'
Looked-new {name} {v} a valid called e = rw e (record {
  same = λ j h. ground (arith, eq_iff a.name name);
  sound = λ sound. IsSound-update v a sound valid;
})

Looked-may :
    (cmd : OpenAccountCmd) {v v' : Accounts} → MayHaveOpened cmd v v' → Looked cmd.name v v'
Looked-may cmd m = elim m.outcome [
  | inl same ↦ Looked-none same
  | inr (a, is_new, stored) ↦ Looked-new a is_new.valid is_new.name stored
]

is_named-update :
    (name : String) (v : Accounts) (a : Account)
    → a.name ≡ name
    → is_named name (update v a a.id) ≡ true
is_named-update name v a h = ground (arith, eq_iff a.name name)

-- An account that does not have the name, if there is one, had none before it moved.
pub is_named-MovedBy :
    (name : String) (n : Int64) (o o' : Option Account)
    → MovedBy n o o'
    → is_named name o' ≡ false
    → is_named name o ≡ false
is_named-MovedBy name n none none h q = refl
is_named-MovedBy name n none (some b) h q = absurd h
is_named-MovedBy name n (some a) none h q = absurd h
is_named-MovedBy name n (some a) (some b) h q = rw (← h.0.name) q

-- The name of the suspense account of a currency.
abbrev pub suspense_name : Currency → String
suspense_name currency = "System Suspense (" <> currency <> ")"

-- The loop over the accounts returns one of them, of that name.
find_named-some :
    (name : String) (all : List Account) (a : Account)
    → find_named name all ≡ some a
    → Mem a all × (a.name ≡ name)
unfolding find_named
find_named-some name [] a e = absurd (cc e)
find_named-some name (b ∷ all) a e = elim (Bool-cases (str_eq b.name name)) [
  | inl named ↦
      let same : some b ≡ some a = rw named at e in
      let at_head : b ≡ a = cc in
      (∣ Memᴰ.head (sym at_head) ∣₁, rw (← at_head) ((eq_iff b.name name).0 named))
  | inr other ↦
      let (there, named) = find_named-some name all a (rw other at e) in
      (∥∥₁_map there (λ d. Memᴰ.tail d), named)
]

module _ {S : Type 0} (svc : LedgerService S) (c : Contract svc) where
  open c use {view}

  -- How the lookup of a system account ends: an account of the name is stored under the id that it
  -- returns; if it fails, there is no id.
  abbrev pub FoundBy : String → Accounts → Result Account × S → Type 0
  FoundBy name v (ok a, s') = Looked name v (view s') × (is_named name (view s' a.id) ≡ true)
  FoundBy name v (err e, s') = Looked name v (view s')

  or_open-FoundBy :
      (o : Option Account) (cmd : OpenAccountCmd) (s : S)
      → ((a : Account) → o ≡ some a → is_named cmd.name (view s a.id) ≡ true)
      → FoundBy cmd.name (view s) (or_open svc o cmd s)
  or_open-FoundBy (some a) cmd s known = (Looked-none refl, known a refl)
  or_open-FoundBy none cmd s known =
      of_outcome (open_account svc cmd s) (open_account-Outcome svc c cmd s)
    where
      of_outcome :
          (r : Result Account × S)
          → Outcome
              (λ a s'. IsNew cmd a × (view s' ≡ update (view s) a))
              (λ s'. MayHaveOpened cmd (view s) (view s'))
              r
          → FoundBy cmd.name (view s) r
      of_outcome (ok a, s') (is_new, is_stored) = (
        Looked-new a is_new.valid is_new.name is_stored,
        rw is_stored (is_named-update cmd.name (view s) a is_new.name),
      )
      of_outcome (err e, s') may = Looked-may cmd may

  pub get_or_create-FoundBy :
      (l : Listing svc c) (name type : String) (currency : Currency) (s : S)
      → l.Holds s
      → FoundBy name (view s) (get_or_create_system_account svc name type currency s)
  unfolding get_or_create_system_account
  get_or_create-FoundBy l name type currency s holds =
      of_all (svc.accounts.find_all s) refl (c.find_all_keeps s)
    where
      cmd : OpenAccountCmd
      cmd = record { name = name; account_type = type; currency = currency }

      known :
          (all : List Account) (s' : S)
          → svc.accounts.find_all s ≡ (ok all, s')
          → (a : Account) → find_named name all ≡ some a
          → is_named name (view s a.id) ≡ true
      known all s' e a h =
          let (inside, named) = find_named-some name all a h in
          rw named at (l.listed s s' all a holds e inside)

      of_all :
          (r : Result (List Account) × S)
          → svc.accounts.find_all s ≡ r
          → view r.1 ≡ view s
          → FoundBy name (view s) (continue r (λ all. or_open svc (find_named name all) cmd))
      of_all (ok all, s') e same =
          rw (← same)
            (or_open-FoundBy (find_named name all) cmd s' (λ a h. rw same (known all s' e a h)))
      of_all (err x, s') e same = Looked-none same

  -- The id and the accounts after the lookup of the suspense account, and what it did.
  pub record Found (name : String) (v v' : Accounts) (id : AccountId) : Type 0 where
    pub looked : Looked name v v'
    pub origin : (id ≡ zero_account_id) ⊎ (is_named name (v' id) ≡ true)

  -- The id is that of the account that was returned, or zero where an error was.
  abbrev pub Returned : Result Account × S → AccountId → Type 0
  Returned (ok a, _) id = id ≡ a.id
  Returned (err _, _) id = id ≡ zero_account_id

  -- For repositories that fulfil the contract of the services and whose FindAll lists stored
  -- accounts, as the in-memory ones do: the lookup of the suspense account of a currency always
  -- returns an id and no error. The id is that of the account which the lookup by name, or the
  -- opening of a new one, returned, and zero only if that returned an error; if it is not zero,
  -- an account of the suspense account's name is stored under it afterwards; every account that
  -- does not have the name afterwards is as it was, and a sound ledger stays sound.
  pub suspense_account_id-Found :
      (l : Listing svc c) (currency : Currency) (s : S)
      → l.Holds s
      → (id : AccountId) × (s' : S) × (suspense_account_id svc currency s ≡ (ok id, s'))
        × Found (suspense_name currency) (view s) (view s') id
        × Returned
            (get_or_create_system_account svc (suspense_name currency) "LIABILITY" currency s)
            id
  unfolding suspense_account_id
  suspense_account_id-Found l currency s holds =
      of_result (get_or_create_system_account svc name "LIABILITY" currency s)
        (get_or_create-FoundBy l name "LIABILITY" currency s holds)
    where
      name : String
      name = suspense_name currency

      of_result :
          (r : Result Account × S)
          → FoundBy name (view s) r
          → (id : AccountId) × (s' : S) × (id_or_zero svc r ≡ (ok id, s'))
            × Found name (view s) (view s') id
            × Returned r id
      of_result (ok a, s') (l, named) =
          (a.id, s', refl, record { looked = l; origin = inr named }, refl)
      of_result (err e, s') l =
          (zero_account_id, s', refl, record { looked = l; origin = inl refl }, refl)
