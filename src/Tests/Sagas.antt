-- ===== src/Tests/Sagas.antt =====
-- Transfers by themselves: the theorems about their steps at concrete arguments.
use ledger_engine.Prelude.{ℕ, ◌≡◌, refl, List, [], ◌∷◌}
use ledger_engine.Ledger.Identifiers.{AccountId}
use ledger_engine.Transfer.{
  Transfer, initiated, debited, completed, add_step, mark_debited, mark_completed,
}
use ledger_engine.Transfer.Trail.{
  Call, perform, perform_all, start, states, IsTrailed, perform_all-IsTrailed,
  perform_all_completed,
}

abbrev account_id : ℕ → AccountId
account_id n = record { value = n }

-- What `new_transfer` makes.
abbrev fresh : Transfer
fresh = record {
  id = "|";
  from_account = account_id 1;
  to_account = account_id 2;
  amount = record { amount = 300; currency = "USD" };
  description = "rent";
  state = initiated;
  fail_reason = "";
  steps =
      record {
        action = "transfer.initiated";
        state = initiated;
        detail = "Transfer created";
        timestamp = 1;
      }
      ∷ [];
  created_at = 1;
  updated_at = 1;
}

fresh-IsTrailed : IsTrailed fresh
fresh-IsTrailed = start

-- A second debit is refused between the two that count.
abbrev calls : List Call
calls = Call.debit_done 2 3 ∷ Call.debit_done 4 5 ∷ Call.complete_done 6 7 ∷ []

calls_complete : (perform_all calls fresh).state ≡ completed
unfolding perform_all perform mark_debited mark_completed add_step
calls_complete = refl

perform_all_completed_example :
    states (perform_all calls fresh) ≡ initiated ∷ debited ∷ completed ∷ []
perform_all_completed_example = perform_all_completed calls fresh fresh-IsTrailed calls_complete

perform_all-IsTrailed_example : IsTrailed (perform_all calls fresh)
perform_all-IsTrailed_example = perform_all-IsTrailed calls fresh fresh-IsTrailed
