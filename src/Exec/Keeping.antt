-- ===== src/Exec/Keeping.antt =====
-- Methods that keep a property of the state, whether they succeed or fail.
use ledger_engine.Prelude.{String}
use ledger_engine.Errors.{Result, ok, err}
use ledger_engine.Exec.{Exec, prefixed, continue}

module _ {S : Type 0} (P : S → Type 0) where
  abbrev pub Keeps : {A : Type 0} → Exec S A → Type 0
  Keeps m = (s : S) → P s → P (m s).1

  -- A call, and what follows it.
  pub continue-Keeps :
      {A B : Type 0} (r : Result A × S) (f : A → Exec S B)
      → P r.1
      → ((a : A) → Keeps (f a))
      → P (continue r f).1
  continue-Keeps (ok a, s) f h k = k a s h
  continue-Keeps (err e, s) f h k = h

  pub prefixed-Keeps :
      {A : Type 0} (prefix : String) (r : Result A × S) → P r.1 → P (prefixed prefix r).1
  prefixed-Keeps prefix (ok a, s) h = h
  prefixed-Keeps prefix (err e, s) h = h

  -- The same, of a call whose error is wrapped.
  pub call-Keeps :
      {A B : Type 0} (prefix : String) (r : Result A × S) (f : A → Exec S B)
      → P r.1
      → ((a : A) → Keeps (f a))
      → P (continue (prefixed prefix r) f).1
  call-Keeps prefix r f h k = continue-Keeps (prefixed prefix r) f (prefixed-Keeps prefix r h) k
