-- ===== src/Http/Idempotency/Concurrent/Exclusive.antt =====
-- The locks that requests hold are there, and no two requests with one key hold it.
use ledger_engine.Prelude.{
  ⊤, ℕ, ◌+◌, ◌≡◌, ◌≢◌, ◌<◌, sym, ap, ◌∙◌, ◌==◌, ==_iff, inl, inr, Bool-cases, Bool, true, false,
  String, Option, none, some, arith,
}
use ledger_engine.Errors.{Result, ok, err}
use ledger_engine.Redis
use ledger_engine.Redis.{
  Bytes, Item, Store, find, remove, put, command, get, set, del, set_nx, check, lock, store,
  get_status, unlock, idempotency_key, idempotency_lock, idempotency_status, default_ttl, lock_ttl,
}
use ledger_engine.Http.{Request, Response}
use ledger_engine.Http.Idempotency.Concurrent.{
  Phase, arrived, found, unseen, processing, answered, body_stored, status_stored, store_failed,
  done, Serving, at, key, moved, after_check, after_lock, after_serve, after_release,
}
use ledger_engine.Http.Idempotency.Concurrent.Locks.{Within, Live, Taken}

-- The request has taken its lock and not given it back.
abbrev pub Holds : Phase → Type 0
Holds arrived = ⊥
Holds found = ⊥
Holds unseen = ⊥
Holds processing = Unit
Holds (answered response) = Unit
Holds (body_stored response r) = Unit
Holds (status_stored r₁ r₂) = Unit
Holds store_failed = ⊥
Holds done = ⊥

pub arrived-free : (p : Phase) → p ≡ arrived → ¬ Holds p
arrived-free p e h = rw e at h

module _ {S : Type 0} (redis : Redis.Server) (next : Request → S → Option Response × S)
    (requests : ℕ → Request) (first last : ℕ)
    (brief : (m n : ℕ)
      → Within redis first last m
      → Within redis first last n
      → redis.now m < redis.now n + lock_ttl) where
  abbrev name : ℕ → String
  name i = key redis next requests i

  pub record IsExclusive (w : Serving S) : Type 0 where
    pub held :
        (i : ℕ)
        → Holds (w.phase i)
        → Live redis first last (idempotency_lock (name i)) w.redis.items
    pub alone : (i j : ℕ) → Holds (w.phase i) → Holds (w.phase j) → name i ≡ name j → i ≡ j

  -- No request comes to hold a lock, and the locks that are held are there.
  abbrev pub Shrinks : Serving S → Serving S → Type 0
  Shrinks w w' =
      (j : ℕ)
      → Holds (w'.phase j)
      → Holds (w.phase j) × Live redis first last (idempotency_lock (name j)) w'.redis.items

  pub Shrinks-IsExclusive : (w w' : Serving S) → Shrinks w w' → IsExclusive w → IsExclusive w'
  Shrinks-IsExclusive w w' f ex = record {
    held = λ i h. (f i h).1;
    alone = λ i j hi hj e. ex.alone i j (f i hi).0 (f j hj).0 e;
  }

  -- The i-th request goes to a phase that holds no lock.
  pub leaves :
      (i : ℕ) (p : Phase) (s : Store) (inner : S) (w : Serving S)
      → ¬ Holds p
      → ((j : ℕ)
          → i ≢ j
          → Holds (w.phase j)
          → Live redis first last (idempotency_lock (name j)) s.items)
      → Shrinks w (record { redis = s; inner = inner; phase = at w.phase i p })
  leaves i p s inner w free keeps j h = elim (Bool-cases (j == i)) [
    | inl same ↦ absurd (free (rw same at h))
    | inr other ↦
        let holds : Holds (w.phase j) = rw other at h in
        (holds, keeps j (λ e. absurd (ground (arith, e, other))) holds)
  ]

  -- The lock of the i-th request was taken.
  enters :
      (i : ℕ) (s : Store) (w : Serving S)
      → Within redis first last w.redis.calls
      → find (redis.now w.redis.calls) (idempotency_lock (name i)) w.redis.items ≡ none
      → Live redis first last (idempotency_lock (name i)) s.items
      → ((k : String) → Live redis first last k w.redis.items → Live redis first last k s.items)
      → IsExclusive w
      → IsExclusive (moved redis next requests i processing s w)
  enters i s w within free mine keeps ex = record {
    held = λ j h. elim (Bool-cases (j == i)) [
      | inl same ↦ rw ((==_iff j i).0 same) mine
      | inr other ↦ keeps (idempotency_lock (name j)) (ex.held j (rw other at h))
    ];
    alone = λ a b ha hb e. elim (Bool-cases (a == i)) [
      | inl at_a ↦ elim (Bool-cases (b == i)) [
        | inl at_b ↦ (==_iff a i).0 at_a ∙ sym ((==_iff b i).0 at_b)
        | inr other ↦ absurd (taken b (rw other at hb) (sym e ∙ ap name ((==_iff a i).0 at_a)))
      ]
      | inr other ↦ elim (Bool-cases (b == i)) [
        | inl at_b ↦ absurd (taken a (rw other at ha) (e ∙ ap name ((==_iff b i).0 at_b)))
        | inr other' ↦ ex.alone a b (rw other at ha) (rw other' at hb) e
      ]
    ];
  }
    where
      taken : (j : ℕ) → Holds (w.phase j) → name j ≡ name i → ⊥
      taken j h e =
          ex.held j h w.redis.calls within
            (ap (λ k. find (redis.now w.redis.calls) (idempotency_lock k) w.redis.items) e ∙ free)

  pub after_check-IsExclusive :
      (i : ℕ) (w : Serving S) (r : Result (Option Bytes) × Store)
      → r.1.items ≡ w.redis.items
      → IsExclusive w
      → IsExclusive (after_check redis next requests i r w)
  after_check-IsExclusive i w (err _, s) same ex =
      Shrinks-IsExclusive w _
        (leaves i done s w.inner w (λ h. h) (λ j apart h. rw same (ex.held j h))) ex
  after_check-IsExclusive i w (ok (some cached), s) same ex =
      Shrinks-IsExclusive w _
        (leaves i found s w.inner w (λ h. h) (λ j apart h. rw same (ex.held j h))) ex
  after_check-IsExclusive i w (ok none, s) same ex =
      Shrinks-IsExclusive w _
        (leaves i unseen s w.inner w (λ h. h) (λ j apart h. rw same (ex.held j h))) ex

  pub after_lock-IsExclusive :
      (i : ℕ) (w : Serving S) (r : Result Bool × Store)
      → Within redis first last w.redis.calls
      → Taken redis first last brief (name i) w.redis r
      → IsExclusive w
      → IsExclusive (after_lock redis next requests i r w)
  after_lock-IsExclusive i w (err _, s) within same ex =
      Shrinks-IsExclusive w _
        (leaves i done s w.inner w (λ h. h) (λ j apart h. rw same (ex.held j h))) ex
  after_lock-IsExclusive i w (ok false, s) within same ex =
      Shrinks-IsExclusive w _
        (leaves i done s w.inner w (λ h. h) (λ j apart h. rw same (ex.held j h))) ex
  after_lock-IsExclusive i w (ok true, s) within (free, mine, keeps) ex =
      enters i s w within free mine keeps ex

  pub after_serve-IsExclusive :
      (i : ℕ) (w : Serving S) (p : Option Response × S)
      → w.phase i ≡ processing
      → IsExclusive w
      → IsExclusive (after_serve redis next requests i p w)
  after_serve-IsExclusive i w (none, inner) e ex =
      Shrinks-IsExclusive w _ (leaves i done w.redis inner w (λ h. h) (λ j apart h. ex.held j h)) ex
  after_serve-IsExclusive i w (some response, inner) e ex =
      Shrinks-IsExclusive w _
        (λ j h. elim (Bool-cases (j == i)) [
          | inl same ↦
              let holds : Holds (w.phase j) = rw ((==_iff j i).0 same, e) tt in
              (holds, ex.held j holds)
          | inr other ↦ (rw other at h, ex.held j (rw other at h))
        ])
        ex

  -- The i-th request goes on with its lock held.
  pub stays :
      (i : ℕ) (p : Phase) (s : Store) (w : Serving S)
      → Holds (w.phase i)
      → ((k : String)
          → Live redis first last (idempotency_lock k) w.redis.items
          → Live redis first last (idempotency_lock k) s.items)
      → IsExclusive w
      → IsExclusive (moved redis next requests i p s w)
  stays i p s w holding keeps ex =
      Shrinks-IsExclusive w _
        (λ j h. elim (Bool-cases (j == i)) [
          | inl same ↦
              let holds : Holds (w.phase j) = rw ((==_iff j i).0 same) holding in
              (holds, keeps (name j) (ex.held j holds))
          | inr other ↦ (rw other at h, keeps (name j) (ex.held j (rw other at h)))
        ])
        ex

  pub after_release-IsExclusive :
      (i : ℕ) (r₁ r₂ : Result ⊤) (p : Result ⊤ × Store) (w : Serving S)
      → w.phase i ≡ status_stored r₁ r₂
      → ((j : ℕ)
          → i ≢ j
          → Holds (w.phase j)
          → Live redis first last (idempotency_lock (name j)) p.1.items)
      → IsExclusive w
      → IsExclusive (after_release redis next requests i r₁ r₂ p w)
  after_release-IsExclusive i (ok _) (ok _) (ok _, s) w e keeps ex =
      Shrinks-IsExclusive w _ (leaves i done s w.inner w (λ h. h) keeps) ex
  after_release-IsExclusive i (ok _) (ok _) (err x, s) w e keeps ex =
      Shrinks-IsExclusive w _ (leaves i store_failed s w.inner w (λ h. h) keeps) ex
  after_release-IsExclusive i (ok _) (err x) (r, s) w e keeps ex =
      Shrinks-IsExclusive w _ (leaves i store_failed s w.inner w (λ h. h) keeps) ex
  after_release-IsExclusive i (err x) r₂ (r, s) w e keeps ex =
      Shrinks-IsExclusive w _ (leaves i store_failed s w.inner w (λ h. h) keeps) ex
