-- ===== src/Projection/Posting.antt =====
-- The rows of the balances under the entries of an event.
use ledger_engine.Prelude.{
  ◌≡◌, refl, sym, ap, ◌∙◌, inl, inr, Bool-cases, if◌then◌else◌, str_eq, eq_iff, String, Option,
  none, some, List, [], ◌∷◌, map, arith,
}
use ledger_engine.Prelude.Int64.{
  Int64, IsInt64, add64, sub64, neg64, add64-IsInt64, add64_assoc, add64-zero, zero-add64,
}
use ledger_engine.Environment.{Time}
use ledger_engine.Ledger.Event.{EntryEventData}
use ledger_engine.Postgres.Tables.{BalanceRow}
use ledger_engine.Projection.{both_rows, moved_row, bigint_add, update_all, balance_at, delta}

-- What an entry adds to the balance of its account.
abbrev pub effect : EntryEventData → Int64
effect e = if str_eq e.type "CREDIT" then e.amount else sub64 0 e.amount

delta-effect : (e : EntryEventData) → delta e ≡ effect e
unfolding delta neg64
delta-effect e = refl

-- The sum of what the entries add to one account.
abbrev pub net_of : String → List EntryEventData → Int64
net_of account [] = 0
net_of account (e ∷ es) =
    add64 (if str_eq account e.account_id then effect e else 0) (net_of account es)

net_of-IsInt64 : (account : String) (es : List EntryEventData) → IsInt64 (net_of account es)
net_of-IsInt64 account [] = omega arith
net_of-IsInt64 account (e ∷ es) = add64-IsInt64 _ _

-- The row after one entry.
abbrev pub post : Time → EntryEventData → BalanceRow → BalanceRow
post stamp e r =
    if str_eq r.account_id e.account_id
    then record r {
      balance = add64 r.balance (effect e);
      version = add64 r.version 1;
      updated_at = stamp;
    }
    else r

abbrev pub post_all : Time → List EntryEventData → List BalanceRow → List BalanceRow
post_all stamp [] rows = rows
post_all stamp (e ∷ es) rows = post_all stamp es (map (post stamp e) rows)

bigint_add-add64 : (a b c : Int64) → bigint_add a b ≡ some c → c ≡ add64 a b
unfolding bigint_add
bigint_add-add64 a b c h = ground arith

both_rows-some :
    (o : Option BalanceRow) (p : Option (List BalanceRow)) (rows' : List BalanceRow)
    → both_rows o p ≡ some rows'
    → (r : BalanceRow) × (rows : List BalanceRow) × (o ≡ some r)
      × (p ≡ some rows)
      × (rows' ≡ r ∷ rows)
both_rows-some none p rows' h = absurd (cc h)
both_rows-some (some r) none rows' h = absurd (cc h)
both_rows-some (some r) (some rows) rows' h = (r, rows, refl, refl, cc h)

moved_row-some :
    (stamp : Time) (r r' : BalanceRow) (b v : Option Int64)
    → moved_row stamp r b v ≡ some r'
    → (balance : Int64) × (version : Int64) × (b ≡ some balance)
      × (v ≡ some version)
      × (r' ≡ record r { balance = balance; version = version; updated_at = stamp })
moved_row-some stamp r r' none v h = absurd (cc h)
moved_row-some stamp r r' (some b) none h = absurd (cc h)
moved_row-some stamp r r' (some b) (some v) h = (b, v, refl, refl, cc h)

updated_row :
    (stamp : Time) (e : EntryEventData) (r r' : BalanceRow)
    → (if str_eq r.account_id e.account_id
        then moved_row stamp r (bigint_add r.balance (delta e)) (bigint_add r.version 1)
        else some r)
      ≡ some r'
    → r' ≡ post stamp e r
updated_row stamp e r r' h = elim (Bool-cases (str_eq r.account_id e.account_id)) [
  | inl same ↦
      let (b, v, p, q, t) =
        moved_row-some stamp r r' (bigint_add r.balance (delta e)) (bigint_add r.version 1)
          (rw same at h) in
      rw same (
        cc (
          t,
          delta-effect e,
          bigint_add-add64 r.balance (delta e) b p,
          bigint_add-add64 r.version 1 v q,
        ))
  | inr other ↦ rw other (cc (rw other at h))
]

pub update_all-post :
    (stamp : Time) (e : EntryEventData) (rows rows' : List BalanceRow)
    → update_all stamp (delta e) e.account_id rows ≡ some rows'
    → rows' ≡ map (post stamp e) rows
unfolding update_all
update_all-post stamp e [] rows' h = cc h
update_all-post stamp e (r ∷ rows) rows' h =
    let (r₁, rows₁, p, q, t) =
      both_rows-some
        (if str_eq r.account_id e.account_id
          then moved_row stamp r (bigint_add r.balance (delta e)) (bigint_add r.version 1)
          else some r)
        (update_all stamp (delta e) e.account_id rows) rows' h in
    cc (t, updated_row stamp e r r₁ p, update_all-post stamp e rows rows₁ q)

post-account_id :
    (stamp : Time) (e : EntryEventData) (r : BalanceRow)
    → (post stamp e r).account_id ≡ r.account_id
post-account_id stamp e r = ground arith

post-balance :
    (stamp : Time) (e : EntryEventData) (r : BalanceRow)
    → (post stamp e r).balance
      ≡ (if str_eq r.account_id e.account_id then add64 r.balance (effect e) else r.balance)
post-balance stamp e r = ground arith

balance_at-post :
    (stamp : Time) (e : EntryEventData) (account : String) (rows : List BalanceRow) (b : Int64)
    → balance_at account rows ≡ some b
    → balance_at account (map (post stamp e) rows)
      ≡ some (if str_eq account e.account_id then add64 b (effect e) else b)
unfolding balance_at
balance_at-post stamp e account [] b h = absurd (cc h)
balance_at-post stamp e account (r ∷ rows) b h = elim (Bool-cases (str_eq r.account_id account)) [
  | inl here ↦
      rw (post-account_id stamp e r, here, post-balance stamp e r)
        (rw (← (eq_iff r.account_id account).0 here) (ap some (cc (rw here at h))))
  | inr other ↦
      rw (post-account_id stamp e r, other) (balance_at-post stamp e account rows b (rw other at h))
]

pub balance_at-post_all :
    (stamp : Time) (es : List EntryEventData) (account : String) (rows : List BalanceRow)
    (b : Int64)
    → IsInt64 b
    → balance_at account rows ≡ some b
    → balance_at account (post_all stamp es rows) ≡ some (add64 b (net_of account es))
balance_at-post_all stamp [] account rows b wide here = here ∙ ap some (sym (add64-zero b wide))
balance_at-post_all stamp (e ∷ es) account rows b wide here =
    let part = if str_eq account e.account_id then effect e else 0 in
    elim (Bool-cases (str_eq account e.account_id)) [
      | inl named ↦ rw named (
          balance_at-post_all stamp es account (map (post stamp e) rows) (add64 b (effect e))
            (add64-IsInt64 b (effect e)) (rw named at (balance_at-post stamp e account rows b here))
          ∙ ap some (add64_assoc b (effect e) (net_of account es)))
      | inr other ↦ rw other (
          balance_at-post_all stamp es account (map (post stamp e) rows) b wide
            (rw other at (balance_at-post stamp e account rows b here))
          ∙ ap (λ n. some (add64 b n))
              (sym (zero-add64 (net_of account es) (net_of-IsInt64 account es))))
    ]

-- An account that the read model does not have stays unknown to it.
balance_at-post-none :
    (stamp : Time) (e : EntryEventData) (account : String) (rows : List BalanceRow)
    → balance_at account rows ≡ none
    → balance_at account (map (post stamp e) rows) ≡ none
unfolding balance_at
balance_at-post-none stamp e account [] h = refl
balance_at-post-none stamp e account (r ∷ rows) h =
    elim (Bool-cases (str_eq r.account_id account)) [
      | inl here ↦ absurd (cc (rw here at h))
      | inr other ↦
          rw (post-account_id stamp e r, other)
            (balance_at-post-none stamp e account rows (rw other at h))
    ]

pub balance_at-post_all-none :
    (stamp : Time) (es : List EntryEventData) (account : String) (rows : List BalanceRow)
    → balance_at account rows ≡ none
    → balance_at account (post_all stamp es rows) ≡ none
balance_at-post_all-none stamp [] account rows h = h
balance_at-post_all-none stamp (e ∷ es) account rows h =
    balance_at-post_all-none stamp es account (map (post stamp e) rows)
      (balance_at-post-none stamp e account rows h)
