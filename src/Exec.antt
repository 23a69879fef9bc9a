-- ===== src/Exec.antt =====
-- Methods that change state and may fail. What was written before an error stays written, so the
-- state comes back beside the error too.
pub mod Rules
pub mod Keeping
use ledger_engine.Prelude.{String, ◌≡◌}
use ledger_engine.Errors.{Error, Result, ok, err, wrap}

abbrev pub Exec : Type 0 → Type 0 → Type 0
Exec S A = S → Result A × S

module _ {S A : Type 0} where
  abbrev pub pure : A → Exec S A
  pure a s = (ok a, s)

  abbrev pub raise : Error → Exec S A
  raise e s = (err e, s)

  abbrev pub lift : Result A → Exec S A
  lift r s = (r, s)

  -- a call that cannot fail
  abbrev pub total : (S → A × S) → Exec S A
  total f s = let (a, s') = f s in (ok a, s')

  -- if err != nil { return fmt.Errorf(prefix + ": %w", err) }
  abbrev pub prefixed : String → Result A × S → Result A × S
  prefixed prefix (ok a, s) = (ok a, s)
  prefixed prefix (err e, s) = (err (wrap prefix e), s)

  abbrev pub wrapping : String → Exec S A → Exec S A
  wrapping prefix m s = prefixed prefix (m s)

module _ {S A B : Type 0} where
  abbrev pub continue : Result A × S → (A → Exec S B) → Result B × S
  continue (ok a, s) f = f a s
  continue (err e, s) f = (err e, s)

  infixl 5 ◌>>=◌ ◌>>◌
  abbrev pub ◌>>=◌ : Exec S A → (A → Exec S B) → Exec S B
  ◌>>=◌ m f s = continue (m s) f

  abbrev pub ◌>>◌ : Exec S A → Exec S B → Exec S B
  m >> n = m >>= λ _. n
