-- ===== src/Ledger/Transaction/Creation.antt =====
-- What NewTransaction of internal/domain/ledger/transaction.go returns.
use ledger_engine.Prelude.{◌≡◌, refl, inl, inr, ap, List, [], ◌∷◌, map, All, String}
use ledger_engine.Environment.{Time, Env}
use ledger_engine.Errors.{ok, Result-cases}
use ledger_engine.Exec.Rules.{Outcome}
use ledger_engine.Ledger.Identifiers.{generate_entry_id, generate_transaction_id}
use ledger_engine.Ledger.Entry.{EntryParams, Entry, new_entry}
use ledger_engine.Ledger.Transaction.{Transaction, check_params, new_entries, new_transaction}
use ledger_engine.Ledger.Transaction.Spec.{IsBooked, params_of}
use ledger_engine.Ledger.Transaction.Validation.{check_params_iff}

module _ {S : Type 0} (env : Env S) where
  -- The loop makes an entry for each parameter, in order, at one time, and does not fail.
  new_entries-ok :
      (ps : List EntryParams) (now : Time) (s : S)
      → (es : List Entry) × (s' : S) × (new_entries env ps now s ≡ (ok es, s'))
        × (map params_of es ≡ ps)
        × All (λ (e : Entry). e.created_at ≡ now) es
  unfolding new_entries new_entry generate_entry_id
  new_entries-ok [] now s = ([], s, refl, refl, tt)
  new_entries-ok (p ∷ ps) now s =
      let (es, s', run, same, times) = new_entries-ok ps now (env.new_uuid s).1 in
      (
        record {
          id = record { value = (env.new_uuid s).0 };
          account_id = p.account_id;
          amount = p.amount;
          type = p.type;
          created_at = now;
        }
            ∷ es,
        s',
        rw run,
        ap (λ l. p ∷ l) same,
        (refl, times),
      )

  -- What a new transaction has to do with the parameters that it was made of.
  pub record Records (ps : List EntryParams) (description : String) (t : Transaction) : Type 0 where
    pub booked : IsBooked ps
    pub entries_match : map params_of t.entries ≡ ps
    pub one_time : All (λ (e : Entry). e.created_at ≡ t.created_at) t.entries
    pub description_match : t.description ≡ description

  -- If NewTransaction succeeds, its parameters keep the double-entry rule, and the transaction has
  -- the entries asked for, in order, all of its own time, and the description. If it fails, they
  -- break the rule, and nothing was drawn from the clock or the UUIDs.
  pub new_transaction-Records :
      (ps : List EntryParams) (description : String) (s : S)
      → Outcome
          (λ t s'. Records ps description t)
          (λ s'. (s' ≡ s) × ¬ IsBooked ps)
          (new_transaction env ps description s)
  unfolding new_transaction generate_transaction_id
  new_transaction-Records ps description s = elim (Result-cases (check_params ps)) [
    | inr (e, refused) ↦ rw refused (refl, λ booked. cc (refused, (check_params_iff ps).1 booked))
    | inl (_, accepted) ↦
        let (es, s', run, same, times) = new_entries-ok ps (env.now s).0 (env.now s).1 in
        rw (accepted, run)
          (record {
            booked = (check_params_iff ps).0 accepted;
            entries_match = same;
            one_time = times;
            description_match = refl;
          })
  ]
