-- ===== src/Transfer/Trail.antt =====
-- The steps recorded by the methods of internal/domain/transfer/transfer.go, as a path of states.
use ledger_engine.Prelude.{◌≡◌, ◌≢◌, refl, String, List, [], ◌∷◌, ◌++◌, map, arith}
use mathlib.Core.List.{map-append}
use ledger_engine.Environment.{Time, UuidLib, Env}
use ledger_engine.Exec.Rules.{Outcome}
use ledger_engine.Ledger.Money.{Money}
use ledger_engine.Ledger.Identifiers.{AccountId}
use ledger_engine.Transfer.{
  SagaState, initiated, debited, completed, failed, compensated, SagaStep, Transfer, debited_from,
  completed_from, new_transfer, mark_debited, mark_completed, mark_failed, mark_compensated,
}

-- The calls of the four methods.
pub data Call : Type 0 where
  debit_done complete_done compensate_done : Time → Time → Call
  failing : Time → Time → String → Call

unfoldable pub perform : Call → Transfer → Transfer
perform (debit_done now stamp) t = (mark_debited now stamp t).1
perform (complete_done now stamp) t = (mark_completed now stamp t).1
perform (compensate_done now stamp) t = mark_compensated now stamp t
perform (failing now stamp reason) t = mark_failed now stamp reason t

unfoldable pub perform_all : List Call → Transfer → Transfer
perform_all [] t = t
perform_all (c ∷ cs) t = perform_all cs (perform c t)

-- What the code lets happen: `FAILED` and `COMPENSATED` are entered from any state.
pub data Change : SagaState → SagaState → Type 0 where
  debiting : Change initiated debited
  completing : Change debited completed
  giving_up : {s : SagaState} → Change s failed
  undoing : {s : SagaState} → Change s compensated

-- The states in the order in which they were entered, and the last of them.
pub data Trail : List SagaState → SagaState → Type 0 where
  start : Trail (initiated ∷ []) initiated
  next :
      {l l' : List SagaState} {s t : SagaState}
      → Trail l s
      → Change s t
      → l' ≡ l ++ t ∷ []
      → Trail l' t

abbrev pub states : Transfer → List SagaState
states t = map (λ (s : SagaStep). s.state) t.steps

-- A transfer whose recorded steps are the path to its state.
abbrev pub IsTrailed : Transfer → Type 0
IsTrailed t = Trail (states t) t.state

append_state :
    (l : List SagaStep) (x : SagaStep)
    → map (λ (s : SagaStep). s.state) (l ++ x ∷ [])
      ≡ map (λ (s : SagaStep). s.state) l ++ x.state ∷ []
append_state l x = simp map-append

mark_debited-IsTrailed :
    (now stamp : Time) (t : Transfer) → IsTrailed t → IsTrailed (mark_debited now stamp t).1
unfolding mark_debited
mark_debited-IsTrailed now stamp t h = step t.state refl h
  where
    step :
        (s : SagaState)
        → t.state ≡ s
        → Trail (states t) s
        → IsTrailed (debited_from s now stamp t).1
    step initiated e h = next h debiting (append_state t.steps _)
    step debited e h = rw e h
    step completed e h = rw e h
    step failed e h = rw e h
    step compensated e h = rw e h

mark_completed-IsTrailed :
    (now stamp : Time) (t : Transfer) → IsTrailed t → IsTrailed (mark_completed now stamp t).1
unfolding mark_completed
mark_completed-IsTrailed now stamp t h = step t.state refl h
  where
    step :
        (s : SagaState)
        → t.state ≡ s
        → Trail (states t) s
        → IsTrailed (completed_from s now stamp t).1
    step initiated e h = rw e h
    step debited e h = next h completing (append_state t.steps _)
    step completed e h = rw e h
    step failed e h = rw e h
    step compensated e h = rw e h

perform-IsTrailed : (c : Call) (t : Transfer) → IsTrailed t → IsTrailed (perform c t)
unfolding perform mark_failed mark_compensated
perform-IsTrailed (debit_done now stamp) t h = mark_debited-IsTrailed now stamp t h
perform-IsTrailed (complete_done now stamp) t h = mark_completed-IsTrailed now stamp t h
perform-IsTrailed (compensate_done now stamp) t h = next h undoing (append_state t.steps _)
perform-IsTrailed (failing now stamp reason) t h = next h giving_up (append_state t.steps _)

-- If the steps recorded of a transfer are a path to its state, they are so after any sequence of
-- calls of its methods, refused ones included.
pub perform_all-IsTrailed :
    (cs : List Call) (t : Transfer) → IsTrailed t → IsTrailed (perform_all cs t)
unfolding perform_all
perform_all-IsTrailed [] t h = h
perform_all-IsTrailed (c ∷ cs) t h =
    perform_all-IsTrailed cs (perform c t) (perform-IsTrailed c t h)

-- If NewTransfer succeeds, the two accounts differ, the amount is the one given, and the recorded
-- steps are the path to the state; if it fails, the accounts are the same, and nothing was drawn
-- from the clock or the UUIDs.
pub new_transfer-IsTrailed :
    {S : Type 0} (env : Env S) (u : UuidLib) (from to : AccountId) (amount : Money)
    (description : String) (s : S)
    → Outcome
        (λ t s'. IsTrailed t × (from ≢ to) × (t.amount ≡ amount))
        (λ s'. (from ≡ to) × (s' ≡ s))
        (new_transfer env u from to amount description s)
unfolding new_transfer
new_transfer-IsTrailed env u from to amount description s = ground (arith, start)

-- No state leads back to the first one.
Trail-initiated :
    {l : List SagaState} {s : SagaState} → Trail l s → s ≡ initiated → l ≡ initiated ∷ []
Trail-initiated start e = refl
Trail-initiated (next h debiting q) e = cc
Trail-initiated (next h completing q) e = cc
Trail-initiated (next h giving_up q) e = cc
Trail-initiated (next h undoing q) e = cc

-- `DEBITED` is entered from there alone.
Trail-debited :
    {l : List SagaState} {s : SagaState} → Trail l s → s ≡ debited → l ≡ initiated ∷ debited ∷ []
Trail-debited start e = cc
Trail-debited (next h debiting q) e = rw (Trail-initiated h refl) at q
Trail-debited (next h completing q) e = cc
Trail-debited (next h giving_up q) e = cc
Trail-debited (next h undoing q) e = cc

Trail-completed :
    {l : List SagaState} {s : SagaState}
    → Trail l s
    → s ≡ completed
    → l ≡ initiated ∷ debited ∷ completed ∷ []
Trail-completed start e = cc
Trail-completed (next h debiting q) e = cc
Trail-completed (next h completing q) e = rw (Trail-debited h refl) at q
Trail-completed (next h giving_up q) e = cc
Trail-completed (next h undoing q) e = cc

-- If the steps recorded of a transfer are a path to its state, and after some calls of its methods,
-- in any order, it says COMPLETED, it has recorded the states INITIATED, DEBITED and COMPLETED in
-- this order and no other.
pub perform_all_completed :
    (cs : List Call) (t : Transfer)
    → IsTrailed t
    → (perform_all cs t).state ≡ completed
    → states (perform_all cs t) ≡ initiated ∷ debited ∷ completed ∷ []
perform_all_completed cs t h e = Trail-completed (perform_all-IsTrailed cs t h) e
