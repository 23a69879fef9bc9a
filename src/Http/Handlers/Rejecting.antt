-- ===== src/Http/Handlers/Rejecting.antt =====
-- A request that is answered 400 has changed nothing.
use ledger_engine.Prelude.{
  ℕ, ◌≡◌, refl, ◌||◌, ◌==◌, inl, inr, Bool-cases, String, Option, none, some, List, arith,
}
use ledger_engine.Prelude.Int64.{is_negative}
use ledger_engine.Errors.{Result, ok, err}
use ledger_engine.Ledger.Identifiers.{AccountId, new_account_id}
use ledger_engine.App.Commands.{EntryCmd}
use ledger_engine.App.Ports.{LedgerService}
use ledger_engine.App.Transfers.{Answer}
use ledger_engine.Http.{Bytes, Request, Response}
use ledger_engine.Http.Handlers.Json.{
  OpenAccountRequest, RecordTransactionRequest, DepositRequest, TransferRequest, Codec,
}
use ledger_engine.Http.Handlers.{
  QueryService, entry_cmds, Handled, unprocessable_or, answered_or, open_decoded, record_cmds,
  record_decoded, deposit_to, deposit_decoded, transferred, transfer_between, transfer_decoded,
  handle_open_account, handle_record_transaction, handle_deposit, handle_transfer,
  handle_get_balance, handle_list_accounts, handle_get_transaction_history,
}

-- The routes of the API, as router.go mounts them.
pub data Route : Type 0 where
  list_route open_route balance_route history_route : Route
  record_route deposit_route transfer_route : Route

module _ {S : Type 0} (codec : Codec) (svc : LedgerService S) (queries : QueryService S) where
  open svc use {uuid}

  -- The state is as it was, if the response is a 400.
  abbrev Rejects : S → Handled codec svc queries → Type 0
  Rejects s (none, s') = Unit
  Rejects s (some response, s') = response.status ≡ 400 → s' ≡ s

  Rejects-unprocessable_or :
      {A : Type 0} (done : A → Response) (s : S) (r : Result A × S)
      → ((a : A) → (done a).status ≡ 400 → ⊥)
      → Rejects s (unprocessable_or codec svc queries done r)
  Rejects-unprocessable_or done s (ok a, s') never = λ e. absurd (never a e)
  Rejects-unprocessable_or done s (err f, s') never = λ e. absurd (omega (arith, e))

  Rejects-answered_or :
      {A : Type 0} (failure : ℕ) (encode : A → Bytes) (s : S) (r : Result A × S)
      → (failure ≡ 400 → ⊥)
      → Rejects s (answered_or codec svc queries failure encode r)
  Rejects-answered_or failure encode s (ok a, s') never = λ e. absurd (omega (arith, e))
  Rejects-answered_or failure encode s (err f, s') never = λ e. absurd (never e)

  Rejects-transferred : (s : S) (a : Answer S) → Rejects s (transferred codec svc queries a)
  Rejects-transferred s (some saga, none, s') = λ e. absurd (omega (arith, e))
  Rejects-transferred s (none, none, s') = tt
  Rejects-transferred s (some saga, some f, s') = λ e. absurd (omega (arith, e))
  Rejects-transferred s (none, some f, s') = tt

  open_decoded-Rejects :
      (s : S) (d : Option OpenAccountRequest) → Rejects s (open_decoded codec svc queries d s)
  open_decoded-Rejects s none = λ _. refl
  open_decoded-Rejects s (some req) = Rejects-unprocessable_or _ s _ (λ a e. omega (arith, e))

  record_cmds-Rejects :
      (s : S) (description : String) (d : Option (List EntryCmd))
      → Rejects s (record_cmds codec svc queries description d s)
  record_cmds-Rejects s description none = λ _. refl
  record_cmds-Rejects s description (some es) =
      Rejects-unprocessable_or _ s _ (λ a e. omega (arith, e))

  record_decoded-Rejects :
      (s : S) (d : Option RecordTransactionRequest)
      → Rejects s (record_decoded codec svc queries d s)
  record_decoded-Rejects s none = λ _. refl
  record_decoded-Rejects s (some req) =
      record_cmds-Rejects s req.description (entry_cmds uuid req.entries)

  deposit_to-Rejects :
      (s : S) (req : DepositRequest codec.Float) (id : Result AccountId)
      → Rejects s (deposit_to codec svc queries req id s)
  deposit_to-Rejects s req (err _) = λ _. refl
  deposit_to-Rejects s req (ok id) =
      let cents = codec.cents req.amount in
      elim (Bool-cases (cents == 0 || is_negative cents)) [
        | inl low ↦ rw low (λ _. refl)
        | inr high ↦ rw high (Rejects-unprocessable_or _ s _ (λ a e. omega (arith, e)))
      ]

  deposit_decoded-Rejects :
      (s : S) (d : Option (DepositRequest codec.Float))
      → Rejects s (deposit_decoded codec svc queries d s)
  deposit_decoded-Rejects s none = λ _. refl
  deposit_decoded-Rejects s (some req) =
      deposit_to-Rejects s req (new_account_id uuid req.account_id)

  transfer_between-Rejects :
      (s : S) (req : TransferRequest codec.Float) (from to : Result AccountId)
      → Rejects s (transfer_between codec svc queries req from to s)
  transfer_between-Rejects s req (err _) to = λ _. refl
  transfer_between-Rejects s req (ok from) (err _) = λ _. refl
  transfer_between-Rejects s req (ok from) (ok to) = Rejects-transferred s _

  transfer_decoded-Rejects :
      (s : S) (d : Option (TransferRequest codec.Float))
      → Rejects s (transfer_decoded codec svc queries d s)
  transfer_decoded-Rejects s none = λ _. refl
  transfer_decoded-Rejects s (some req) =
      transfer_between-Rejects s req (new_account_id uuid req.from_account_id)
        (new_account_id uuid req.to_account_id)

  abbrev pub handle : Route → Request → S → Handled codec svc queries
  handle list_route r s = handle_list_accounts codec svc queries r s
  handle balance_route r s = handle_get_balance codec svc queries r s
  handle history_route r s = handle_get_transaction_history codec svc queries r s
  handle open_route r s = handle_open_account codec svc queries r s
  handle record_route r s = handle_record_transaction codec svc queries r s
  handle deposit_route r s = handle_deposit codec svc queries r s
  handle transfer_route r s = handle_transfer codec svc queries r s

  Rejects-state :
      (s s' : S) (h : Handled codec svc queries) (response : Response)
      → Rejects s h
      → h ≡ (some response, s')
      → response.status ≡ 400
      → s' ≡ s
  Rejects-state s s' h response rejects e bad = (rw e at rejects) bad

  -- Whichever route of the API a request takes, if it is answered with status 400 the state of the
  -- services is as it was.
  pub handle-bad_request :
      (route : Route) (r : Request) (s s' : S) (response : Response)
      → handle route r s ≡ (some response, s')
      → response.status ≡ 400
      → s' ≡ s
  unfolding handle_open_account handle_record_transaction handle_deposit handle_transfer
      handle_get_balance handle_list_accounts handle_get_transaction_history
  handle-bad_request list_route r s s' response e bad =
      Rejects-state s s' _ response
        (Rejects-answered_or 500 codec.encode_views s (queries.list_accounts s)
          (λ q. omega (arith, q)))
        e bad
  handle-bad_request balance_route r s s' response e bad =
      Rejects-state s s' _ response
        (Rejects-answered_or 404 codec.encode_view s (queries.get_account_balance r.account_id s)
          (λ q. omega (arith, q)))
        e bad
  handle-bad_request history_route r s s' response e bad =
      Rejects-state s s' _ response
        (Rejects-answered_or 500 codec.encode_history s
          (queries.get_transaction_history r.account_id 100 0 s) (λ q. omega (arith, q)))
        e bad
  handle-bad_request open_route r s s' response e bad =
      Rejects-state s s' _ response (open_decoded-Rejects s (codec.decode_open_account r.body)) e
        bad
  handle-bad_request record_route r s s' response e bad =
      Rejects-state s s' _ response (record_decoded-Rejects s (codec.decode_transaction r.body)) e
        bad
  handle-bad_request deposit_route r s s' response e bad =
      Rejects-state s s' _ response (deposit_decoded-Rejects s (codec.decode_deposit r.body)) e bad
  handle-bad_request transfer_route r s s' response e bad =
      Rejects-state s s' _ response (transfer_decoded-Rejects s (codec.decode_transfer r.body)) e
        bad
