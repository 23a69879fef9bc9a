-- ===== src/Http/Idempotency/Concurrent/Locks.antt =====
-- What the calls on Redis do to the locks, while a run lasts.
use ledger_engine.Prelude.{
  ℕ, ◌+◌, ◌≡◌, ◌≢◌, ◌<◌, ◌≤◌, refl, sym, ap, ◌∙◌, inl, inr, Bool-cases, Option-cases, Bool, true,
  false, str_eq, eq_iff, String, none, some, List, arith,
}
use text.Mathlib.TextLemmas.{append_cancel_left}
use ledger_engine.Errors.{Result, ok, err}
use ledger_engine.Redis
use ledger_engine.Redis.{
  Bytes, Item, Store, find, remove, put, command, get, set, del, set_nx, check, lock, store,
  get_status, unlock, idempotency_key, idempotency_lock, idempotency_status, default_ttl, lock_ttl,
}
use ledger_engine.Redis.Keys.{find-remove, find-put, find-put_other}

lock-injective : (a b : String) → idempotency_lock a ≡ idempotency_lock b → a ≡ b
lock-injective a b e = append_cancel_left "idem:lock:" a b e

pub other_lock : (a b : String) → a ≢ b → str_eq (idempotency_lock a) (idempotency_lock b) ≡ false
other_lock a b h = elim (Bool-cases (str_eq (idempotency_lock a) (idempotency_lock b))) [
  | inl same ↦
      absurd (h (lock-injective a b ((eq_iff (idempotency_lock a) (idempotency_lock b)).0 same)))
  | inr other ↦ other
]

-- Each command is one call, whatever is answered.
module _ (redis : Redis.Server) where
  pub check-calls : (a : String) (s : Store) → (check redis a s).1.calls ≡ s.calls + 1
  unfolding check get command
  check-calls a s = elim (Option-cases (redis.fault s.calls)) [
    | inr (e, down) ↦ rw down refl
    | inl up ↦ rw up refl
  ]

  pub get_status-calls : (a : String) (s : Store) → (get_status redis a s).1.calls ≡ s.calls + 1
  unfolding get_status get command
  get_status-calls a s = elim (Option-cases (redis.fault s.calls)) [
    | inr (e, down) ↦ rw down refl
    | inl up ↦ rw up refl
  ]

  pub lock-calls : (a : String) (s : Store) → (lock redis a s).1.calls ≡ s.calls + 1
  unfolding lock set_nx command
  lock-calls a s = elim (Option-cases (redis.fault s.calls)) [
    | inr (e, down) ↦ rw down refl
    | inl up ↦ rw up (elim (Option-cases (find (redis.now s.calls) (idempotency_lock a) s.items)) [
      | inr (v, there) ↦ rw there refl
      | inl free ↦ rw free refl
    ])
  ]

  pub set-calls :
      (a : String) (value : Bytes) (ttl : ℕ) (s : Store)
      → (set redis a value ttl s).1.calls ≡ s.calls + 1
  unfolding set command
  set-calls a value ttl s = elim (Option-cases (redis.fault s.calls)) [
    | inr (e, down) ↦ rw down refl
    | inl up ↦ rw up refl
  ]

  pub del-calls : (a : String) (s : Store) → (del redis a s).1.calls ≡ s.calls + 1
  unfolding del command
  del-calls a s = elim (Option-cases (redis.fault s.calls)) [
    | inr (e, down) ↦ rw down refl
    | inl up ↦ rw up refl
  ]

  pub unlock-calls : (a : String) (s : Store) → (unlock redis a s).1.calls ≡ s.calls + 1
  unfolding unlock
  unlock-calls a s = del-calls (idempotency_lock a) s

  -- What a server that answers returns.
  pub set-ok :
      (a : String) (value : Bytes) (ttl : ℕ) (s : Store)
      → redis.fault s.calls ≡ none
      → (set redis a value ttl s).0 ≡ ok tt
  unfolding set command
  set-ok a value ttl s up = rw up refl

  pub del-ok : (a : String) (s : Store) → redis.fault s.calls ≡ none → (del redis a s).0 ≡ ok tt
  unfolding del command
  del-ok a s up = rw up refl

  pub check-items : (a : String) (s : Store) → (check redis a s).1.items ≡ s.items
  unfolding check get command
  check-items a s = elim (Option-cases (redis.fault s.calls)) [
    | inr (e, down) ↦ rw down refl
    | inl up ↦ rw up refl
  ]

  pub get_status-items : (a : String) (s : Store) → (get_status redis a s).1.items ≡ s.items
  unfolding get_status get command
  get_status-items a s = elim (Option-cases (redis.fault s.calls)) [
    | inr (e, down) ↦ rw down refl
    | inl up ↦ rw up refl
  ]

module _ (redis : Redis.Server) (first last : ℕ) where
  -- The call is one of the run.
  abbrev pub Within : ℕ → Type 0
  Within n = (first ≤ n) × (n ≤ last)

  -- The key is there throughout the run.
  abbrev pub Live : String → List Item → Type 0
  Live k items = (n : ℕ) → Within n → find (redis.now n) k items ≢ none

  put-Live :
      (k : String) (i : Item) (items : List Item)
      → ((n : ℕ) → Within n → redis.now n < i.expires)
      → Live k items
      → Live k (put i items)
  put-Live k i items lasts live n within = elim (Bool-cases (str_eq i.key k)) [
    | inl same ↦
        let there : find (redis.now n) k (put i items) ≡ some i.value =
          ap (λ k'. find (redis.now n) k' (put i items)) (sym ((eq_iff i.key k).0 same))
          ∙ find-put (redis.now n) i items (lasts n within) in
        λ gone. absurd (cc (gone, there))
    | inr other ↦ rw (find-put_other (redis.now n) k i items other) (live n within)
  ]

  pub del-Live :
      (a k : String) (s : Store)
      → str_eq a k ≡ false
      → Live k s.items
      → Live k (del redis a s).1.items
  unfolding del command
  del-Live a k s other live = elim (Option-cases (redis.fault s.calls)) [
    | inr (e, down) ↦ rw down live
    | inl up ↦ rw up (λ n within. rw (find-remove (redis.now n) k a s.items other) (live n within))
  ]

  module _ (brief : (m n : ℕ) → Within m → Within n → redis.now m < redis.now n + lock_ttl) where
    pub set-Live :
        (a k : String) (value : Bytes) (ttl : ℕ) (s : Store)
        → lock_ttl ≤ ttl
        → Within s.calls
        → Live k s.items
        → Live k (set redis a value ttl s).1.items
    unfolding set command
    set-Live a k value ttl s long within_run live = elim (Option-cases (redis.fault s.calls)) [
      | inr (e, down) ↦ rw down live
      | inl up ↦ rw up (
          put-Live k (record { key = a; value = value; expires = redis.now s.calls + ttl }) s.items
            (λ n within. omega (arith, brief n s.calls within within_run, long)) live)
    ]

    -- What SET NX of the lock does.
    abbrev pub Taken : String → Store → Result Bool × Store → Type 0
    Taken a s (err _, s') = s'.items ≡ s.items
    Taken a s (ok false, s') = s'.items ≡ s.items
    Taken a s (ok true, s') =
        (find (redis.now s.calls) (idempotency_lock a) s.items ≡ none)
        × Live (idempotency_lock a) s'.items
        × ((k : String) → Live k s.items → Live k s'.items)

    pub lock-Taken : (a : String) (s : Store) → Within s.calls → Taken a s (lock redis a s)
    unfolding lock set_nx command
    lock-Taken a s within_run = elim (Option-cases (redis.fault s.calls)) [
      | inr (e, down) ↦ rw down refl
      | inl up ↦
          rw up (elim (Option-cases (find (redis.now s.calls) (idempotency_lock a) s.items)) [
            | inr (v, there) ↦ rw there refl
            | inl free ↦
                let i : Item = record {
                  key = idempotency_lock a;
                  value = redis.utf8 "processing";
                  expires = redis.now s.calls + lock_ttl;
                } in
                let lasts : (n : ℕ) → Within n → redis.now n < i.expires =
                  λ n within. brief n s.calls within within_run in
                rw free (
                  free,
                  λ n within gone.
                      absurd (cc (gone, find-put (redis.now n) i s.items (lasts n within))),
                  λ k live. put-Live k i s.items lasts live,
                )
          ])
    ]
