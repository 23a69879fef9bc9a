-- ===== src/Transfer.antt =====
-- internal/domain/transfer/transfer.go. A method on *Transfer maps the transfer to the new one; its
-- first two arguments are what `time.Now` gives, for `updatedAt` and for the recorded step.
pub mod Trail
use ledger_engine.Prelude.{⊤, String, List, [], ◌∷◌, ◌++◌, if◌then◌else◌}
use ledger_engine.Environment.{Time, Uuid, UuidLib, Env}
use ledger_engine.Errors.{same_account, invalid_transition, ok, err}
use ledger_engine.Exec.{Exec, pure, raise, total, ◌>>=◌}
use ledger_engine.Ledger.Money.{Money}
use ledger_engine.Ledger.Identifiers.{AccountId, equals}

pub data SagaState : Type 0 where
  initiated debited completed failed compensated : SagaState

-- string(s)
unfoldable pub saga_state_string : SagaState → String
saga_state_string initiated = "INITIATED"
saga_state_string debited = "DEBITED"
saga_state_string completed = "COMPLETED"
saga_state_string failed = "FAILED"
saga_state_string compensated = "COMPENSATED"

pub record SagaStep : Type 0 where
  pub action : String
  pub state : SagaState
  pub detail : String
  pub timestamp : Time

pub record Transfer : Type 0 where
  pub id : String
  pub from_account : AccountId
  pub to_account : AccountId
  pub amount : Money
  pub description : String
  pub state : SagaState
  pub fail_reason : String
  pub steps : List SagaStep
  pub created_at : Time
  pub updated_at : Time

unfoldable pub add_step : Time → String → SagaState → String → Transfer → Transfer
add_step stamp action state detail t = record t {
  steps =
      t.steps ++ record { action = action; state = state; detail = detail; timestamp = stamp } ∷ [];
}

module _ {S : Type 0} (env : Env S) (u : UuidLib) where
  unfoldable pub new_transfer : AccountId → AccountId → Money → String → Exec S Transfer
  unfolding add_step
  new_transfer from to amount description = if equals from to then raise same_account else do
    now ← total env.now
    id ← total env.new_uuid
    stamp ← total env.now
    pure (
        add_step stamp "transfer.initiated" initiated "Transfer created" (record {
          id = u.to_string id;
          from_account = from;
          to_account = to;
          amount = amount;
          description = description;
          state = initiated;
          fail_reason = "";
          steps = [];
          created_at = now;
          updated_at = now;
        }))

-- A guarded method leaves the transfer alone where it returns ErrInvalidTransition.
abbrev debited_from : SagaState → Time → Time → Exec Transfer ⊤
debited_from initiated now stamp t = (
  ok tt,
  add_step stamp "source.debited" debited "Source account debited"
      (record t { state = debited; updated_at = now }),
)
debited_from _ now stamp t = (err invalid_transition, t)

unfoldable pub mark_debited : Time → Time → Exec Transfer ⊤
unfolding add_step
mark_debited now stamp t = debited_from t.state now stamp t

abbrev completed_from : SagaState → Time → Time → Exec Transfer ⊤
completed_from debited now stamp t = (
  ok tt,
  add_step stamp "destination.credited" completed "Transfer completed successfully"
      (record t { state = completed; updated_at = now }),
)
completed_from _ now stamp t = (err invalid_transition, t)

unfoldable pub mark_completed : Time → Time → Exec Transfer ⊤
unfolding add_step
mark_completed now stamp t = completed_from t.state now stamp t

unfoldable pub mark_failed : Time → Time → String → Transfer → Transfer
unfolding add_step
mark_failed now stamp reason t =
    add_step stamp "transfer.failed" failed reason
      (record t { state = failed; fail_reason = reason; updated_at = now })

unfoldable pub mark_compensated : Time → Time → Transfer → Transfer
unfolding add_step
mark_compensated now stamp t =
    add_step stamp "debit.reversed" compensated "Compensating transaction applied"
      (record t { state = compensated; updated_at = now })
