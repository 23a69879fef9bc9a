-- ===== src/Postgres/Server.antt =====
-- What the adapters are given by PostgreSQL and its driver pgx: an answer to each call, and
-- transactions.
use ledger_engine.Prelude.{Bool, ⊤, ℕ, ◌+◌, String, Option, none, some, ◌≡◌, refl}
use ledger_engine.Environment.{Time}
use ledger_engine.Errors.{Error, Result, ok, err}
use ledger_engine.Exec.{Exec, prefixed, continue}
use ledger_engine.Exec.Rules.{Outcome}
use ledger_engine.Ledger.Event.{Payload}
use ledger_engine.Postgres.Tables.{Tables, Db}

-- `fault n` is the error, if any, that the driver reports of its n-th call, which then has no
-- effect, and `now n` is NOW() there. A JSONB column holds a normal form of a text, if it is JSON; a
-- TIMESTAMPTZ column holds a time as exactly as the server keeps it. `collation a b` says that text a
-- may stand ahead of text b.
pub record Server : Type 0 where
  pub fault : ℕ → Option Error
  pub now : ℕ → Time
  pub jsonb : Payload → Option Payload
  pub timestamptz : Time → Time
  pub collation : String → String → Bool

abbrev reply : Option Error → Time → Result Time
reply none now = ok now
reply (some e) now = err e

-- errors are told apart no further: `if err != nil { return e }`
abbrev pub instead : {A : Type 0} → Error → Result A × Db → Result A × Db
instead e (ok a, db) = (ok a, db)
instead e (err _, db) = (err e, db)

module _ (pg : Server) where
  -- One call, and the server's time.
  unfoldable pub call : Exec Db Time
  call db = (reply (pg.fault db.calls) (pg.now db.calls), record db { calls = db.calls + 1 })

  abbrev rolled_back : {A : Type 0} → Tables → Error → Db → Result A × Db
  rolled_back before e db = (err e, record db { tables = before })

  -- return tx.Commit(ctx)
  abbrev committed : {A : Type 0} → Tables → A → Result Time × Db → Result A × Db
  committed before a (ok _, db) = (ok a, db)
  committed before a (err e, db) = rolled_back before e db

  abbrev concluded : {A : Type 0} → Tables → Result A × Db → Result A × Db
  concluded before (ok a, db) = committed before a (call db)
  concluded before (err e, db) = rolled_back before e db

  -- tx, err := pool.Begin(ctx); defer tx.Rollback(ctx); … ; return tx.Commit(ctx). The body is given
  -- NOW(), which is the time at which the transaction began.
  abbrev pub transaction : {A : Type 0} → (Time → Exec Db A) → Exec Db A
  transaction body db =
      continue (prefixed "begin tx" (call db)) (λ start s. concluded db.tables (body start s))

  -- A transaction has the effect of its body, or none.
  pub transaction-Outcome :
      {A : Type 0} (Q : Time → A → Tables → Type 0) (body : Time → Exec Db A) (db : Db)
      → ((start : Time) (s : Db)
          → s.tables ≡ db.tables
          → Outcome (λ a s'. Q start a s'.tables) (λ _. ⊤) (body start s))
      → Outcome
          (λ a s'. (start : Time) × Q start a s'.tables)
          (λ s'. s'.tables ≡ db.tables)
          (transaction body db)
  unfolding call
  transaction-Outcome {A} Q body db h = of_begin (pg.fault db.calls)
    where
      of_commit :
          (start : Time) (a : A) (s : Db) (o : Option Error)
          → Q start a s.tables
          → Outcome
              (λ a s'. (start : Time) × Q start a s'.tables)
              (λ s'. s'.tables ≡ db.tables)
              (committed db.tables a (reply o (pg.now s.calls), record s { calls = s.calls + 1 }))
      of_commit start a s none q = (start, q)
      of_commit start a s (some e) q = refl

      of_body :
          (start : Time) (r : Result A × Db)
          → Outcome (λ a s'. Q start a s'.tables) (λ _. ⊤) r
          → Outcome
              (λ a s'. (start : Time) × Q start a s'.tables)
              (λ s'. s'.tables ≡ db.tables)
              (concluded db.tables r)
      of_body start (ok a, s) q = of_commit start a s (pg.fault s.calls) q
      of_body start (err e, s) q = refl

      of_begin :
          (o : Option Error)
          → Outcome
              (λ a s'. (start : Time) × Q start a s'.tables)
              (λ s'. s'.tables ≡ db.tables)
              (continue
                (prefixed "begin tx"
                  (reply o (pg.now db.calls), record db { calls = db.calls + 1 }))
                (λ start s. concluded db.tables (body start s)))
      of_begin none = of_body (pg.now db.calls) _ (h (pg.now db.calls) _ refl)
      of_begin (some e) = refl

  -- What calls, the body and a rollback keep, a transaction keeps.
  pub transaction-keeps :
      {A : Type 0} (P : Db → Type 0) (body : Time → Exec Db A) (db : Db)
      → ((s : Db) (n : ℕ) → P s → P (record s { calls = n }))
      → ((s : Db) → P s → P (record s { tables = db.tables }))
      → ((start : Time) (s : Db) → P s → P (body start s).1)
      → P db
      → P (transaction body db).1
  unfolding call
  transaction-keeps {A} P body db counts restores inside here =
      of_begin (pg.fault db.calls) (counts db (db.calls + 1) here)
    where
      of_commit :
          (a : A) (s : Db) (o : Option Error)
          → P (record s { calls = s.calls + 1 })
          → P (committed db.tables a (reply o (pg.now s.calls), record s { calls = s.calls + 1 })).1
      of_commit a s none h = h
      of_commit a s (some e) h = restores _ h

      of_body : (r : Result A × Db) → P r.1 → P (concluded db.tables r).1
      of_body (ok a, s) h = of_commit a s (pg.fault s.calls) (counts s (s.calls + 1) h)
      of_body (err e, s) h = restores s h

      of_begin :
          (o : Option Error)
          → P (record db { calls = db.calls + 1 })
          → P
              (continue
                (prefixed "begin tx"
                  (reply o (pg.now db.calls), record db { calls = db.calls + 1 }))
                (λ start s. concluded db.tables (body start s))).1
      of_begin none h = of_body _ (inside (pg.now db.calls) _ h)
      of_begin (some e) h = h
