-- ===== src/Account/Lifecycle.antt =====
-- The diagram of the statuses of internal/domain/account/account.go.
use ledger_engine.Prelude.{◌≡◌, ◌≢◌, refl, List, [], ◌∷◌, arith}
use ledger_engine.Environment.{Time}
use ledger_engine.Account.{
  Account, Status, active, suspended, closed, credit, debit, suspend, reactivate, close,
}
use ledger_engine.Account.Spec.{Operation, apply, run}

-- The edges of the diagram. Any status but `closed` leads to `closed`.
pub data Change : Status → Status → Type 0 where
  stay : {s : Status} → Change s s
  suspending : Change active suspended
  reactivating : Change suspended active
  closing : {s : Status} → s ≢ closed → Change s closed

-- No operation changes the status of an account but along the diagram: active to suspended,
-- suspended to active, and any other than closed to closed.
pub apply-Change :
    (now : Time) (op : Operation) (a : Account) → Change a.status (apply now op a).status
unfolding apply credit debit suspend reactivate close
apply-Change now op a = grind (arith, stay, suspending, reactivating, closing)

apply_closed : (now : Time) (op : Operation) (a : Account) → a.status ≡ closed → apply now op a ≡ a
unfolding apply credit debit suspend reactivate close
apply_closed now op a h = ground arith

-- A closed account is as it was after any sequence of operations.
pub run_closed : (ops : List (Time × Operation)) (a : Account) → a.status ≡ closed → run ops a ≡ a
unfolding run
run_closed [] a h = refl
run_closed ((now, op) ∷ ops) a h = rw (apply_closed now op a h) (run_closed ops a h)
