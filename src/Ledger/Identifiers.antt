-- ===== src/Ledger/Identifiers.antt =====
-- internal/domain/ledger/identifiers.go: UUIDs, wrapped in a type for each kind of object.
use ledger_engine.Prelude.{String, Bool, ◌==◌}
use ledger_engine.Environment.{Uuid, UuidLib, Env}
use ledger_engine.Errors.{Result, ok, err, invalid_id}
use ledger_engine.Exec.{Exec, pure, total, ◌>>=◌}

pub record AccountId : Type 0 where
  pub value : Uuid

pub record TransactionId : Type 0 where
  pub value : Uuid

pub record EntryId : Type 0 where
  pub value : Uuid

-- the zero value AccountID{}
abbrev pub zero_account_id : AccountId
zero_account_id = record { value = 0 }

abbrev pub equals : AccountId → AccountId → Bool
equals id o = id.value == o.value

-- if err != nil { return ErrInvalidID }
abbrev or_invalid : {A : Type 0} → (Uuid → A) → Result Uuid → Result A
or_invalid make (ok parsed) = ok (make parsed)
or_invalid make (err e) = err invalid_id

module _ (u : UuidLib) where
  unfoldable pub new_account_id : String → Result AccountId
  new_account_id id = or_invalid (λ v. record { value = v }) (u.parse id)

  unfoldable pub new_transaction_id : String → Result TransactionId
  new_transaction_id id = or_invalid (λ v. record { value = v }) (u.parse id)

  unfoldable pub new_entry_id : String → Result EntryId
  new_entry_id id = or_invalid (λ v. record { value = v }) (u.parse id)

  abbrev pub account_id_string : AccountId → String
  account_id_string id = u.to_string id.value

  abbrev pub transaction_id_string : TransactionId → String
  transaction_id_string id = u.to_string id.value

  abbrev pub entry_id_string : EntryId → String
  entry_id_string id = u.to_string id.value

module _ {S : Type 0} (env : Env S) where
  unfoldable pub generate_account_id : Exec S AccountId
  generate_account_id = do v ← total env.new_uuid; pure (record { value = v })

  unfoldable pub generate_transaction_id : Exec S TransactionId
  generate_transaction_id = do v ← total env.new_uuid; pure (record { value = v })

  unfoldable pub generate_entry_id : Exec S EntryId
  generate_entry_id = do v ← total env.new_uuid; pure (record { value = v })
