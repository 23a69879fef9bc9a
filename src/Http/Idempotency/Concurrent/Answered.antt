-- ===== src/Http/Idempotency/Concurrent/Answered.antt =====
-- While the Redis server answers every command, no pipeline fails.
use ledger_engine.Prelude.{
  ⊤, ℕ, ◌≡◌, refl, ◌==◌, inl, inr, Bool-cases, Bool, true, false, Option, none, some,
}
use ledger_engine.Errors.{Result, ok, err}
use ledger_engine.Redis
use ledger_engine.Redis.{
  Bytes, Item, Store, find, remove, put, command, get, set, del, set_nx, check, lock, store,
  get_status, unlock, idempotency_key, idempotency_lock, idempotency_status, default_ttl, lock_ttl,
}
use ledger_engine.Http.{Request, Response}
use ledger_engine.Http.Idempotency.Concurrent.{
  Phase, arrived, found, unseen, processing, answered, body_stored, status_stored, store_failed,
  done, Serving, at, after_check, after_lock, after_serve, after_body, after_status, after_release,
}

-- No command of the request had an error.
abbrev pub IsFine : Phase → Type 0
IsFine (body_stored response (err e)) = ⊥
IsFine (status_stored (err e) r) = ⊥
IsFine (status_stored (ok _) (err e)) = ⊥
IsFine store_failed = ⊥
IsFine _ = Unit

pub arrived-IsFine : (p : Phase) → p ≡ arrived → IsFine p
arrived-IsFine p e = rw e tt

module _ {S : Type 0} (redis : Redis.Server) (next : Request → S → Option Response × S)
    (requests : ℕ → Request) where
  abbrev pub AllFine : Serving S → Type 0
  AllFine w = (j : ℕ) → IsFine (w.phase j)

  pub at-IsFine :
      (phase : ℕ → Phase) (i : ℕ) (p : Phase)
      → IsFine p
      → ((j : ℕ) → IsFine (phase j))
      → (j : ℕ) → IsFine (at phase i p j)
  at-IsFine phase i p mine others j = elim (Bool-cases (j == i)) [
    | inl same ↦ rw same mine
    | inr other ↦ rw other (others j)
  ]

  pub after_check-AllFine :
      (i : ℕ) (w : Serving S) (r : Result (Option Bytes) × Store)
      → AllFine w
      → AllFine (after_check redis next requests i r w)
  after_check-AllFine i w (err _, s) fine = at-IsFine w.phase i done tt fine
  after_check-AllFine i w (ok (some cached), s) fine = at-IsFine w.phase i found tt fine
  after_check-AllFine i w (ok none, s) fine = at-IsFine w.phase i unseen tt fine

  pub after_lock-AllFine :
      (i : ℕ) (w : Serving S) (r : Result Bool × Store)
      → AllFine w
      → AllFine (after_lock redis next requests i r w)
  after_lock-AllFine i w (err _, s) fine = at-IsFine w.phase i done tt fine
  after_lock-AllFine i w (ok false, s) fine = at-IsFine w.phase i done tt fine
  after_lock-AllFine i w (ok true, s) fine = at-IsFine w.phase i processing tt fine

  pub after_serve-AllFine :
      (i : ℕ) (w : Serving S) (p : Option Response × S)
      → AllFine w
      → AllFine (after_serve redis next requests i p w)
  after_serve-AllFine i w (none, inner) fine = at-IsFine w.phase i done tt fine
  after_serve-AllFine i w (some response, inner) fine =
      at-IsFine w.phase i (answered response) tt fine

  pub after_body-AllFine :
      (i : ℕ) (response : Response) (p : Result ⊤ × Store) (w : Serving S)
      → p.0 ≡ ok tt
      → AllFine w
      → AllFine (after_body redis next requests i response p w)
  after_body-AllFine i response (ok _, s) w e fine =
      at-IsFine w.phase i (body_stored response (ok _)) tt fine
  after_body-AllFine i response (err x, s) w e fine = absurd (cc e)

  pub body_stored-ok :
      (response : Response) (r : Result ⊤) (p : Phase)
      → p ≡ body_stored response r
      → IsFine p
      → r ≡ ok tt
  body_stored-ok response (ok _) p e fine = refl
  body_stored-ok response (err x) p e fine = absurd (rw e at fine)

  pub after_status-AllFine :
      (i : ℕ) (r : Result ⊤) (p : Result ⊤ × Store) (w : Serving S)
      → r ≡ ok tt
      → p.0 ≡ ok tt
      → AllFine w
      → AllFine (after_status redis next requests i r p w)
  after_status-AllFine i (ok _) (ok _, s) w e e' fine =
      at-IsFine w.phase i (status_stored (ok _) (ok _)) tt fine
  after_status-AllFine i (ok _) (err x, s) w e e' fine = absurd (cc e')
  after_status-AllFine i (err x) (r, s) w e e' fine = absurd (cc e)

  pub after_release-AllFine :
      (i : ℕ) (r₁ r₂ : Result ⊤) (p : Result ⊤ × Store) (w : Serving S)
      → w.phase i ≡ status_stored r₁ r₂
      → p.0 ≡ ok tt
      → AllFine w
      → AllFine (after_release redis next requests i r₁ r₂ p w)
  after_release-AllFine i (ok _) (ok _) (ok _, s) w e e' fine = at-IsFine w.phase i done tt fine
  after_release-AllFine i (ok _) (ok _) (err x, s) w e e' fine = absurd (cc e')
  after_release-AllFine i (ok _) (err x) (r, s) w e e' fine = absurd (rw e at (fine i))
  after_release-AllFine i (err x) r₂ (r, s) w e e' fine = absurd (rw e at (fine i))
