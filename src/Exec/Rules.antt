-- ===== src/Exec/Rules.antt =====
-- Postconditions of methods: what holds of the result and of the state that is left, on success and
-- on failure apart.
use ledger_engine.Prelude.{String, ◌≡◌, refl}
use ledger_engine.Errors.{Error, Result, ok, err}
use ledger_engine.Exec.{Exec, prefixed, continue}

-- `Q` of the value and the state after a success, `E` of the state after an error.
abbrev pub Outcome {ℓ} : {S A : Type 0} → (A → S → Type ℓ) → (S → Type ℓ) → Result A × S → Type ℓ
Outcome Q E (ok a, s) = Q a s
Outcome Q E (err e, s) = E s

module _ {S A : Type 0} where
  pub Outcome-intro {ℓ} :
      (Q : A → S → Type ℓ) (E : S → Type ℓ) (r : Result A × S)
      → ((a : A) (s : S) → r ≡ (ok a, s) → Q a s)
      → ((e : Error) (s : S) → r ≡ (err e, s) → E s)
      → Outcome Q E r
  Outcome-intro Q E (ok a, s) q x = q a s refl
  Outcome-intro Q E (err e, s) q x = x e s refl

  pub Outcome-prefixed {ℓ} :
      (Q : A → S → Type ℓ) (E : S → Type ℓ) (prefix : String) (r : Result A × S)
      → Outcome Q E r
      → Outcome Q E (prefixed prefix r)
  Outcome-prefixed Q E prefix (ok a, s) h = h
  Outcome-prefixed Q E prefix (err e, s) h = h

  -- The rule of consequence.
  pub Outcome-mono {ℓ κ} :
      (Q : A → S → Type ℓ) (E : S → Type ℓ) (Q' : A → S → Type κ) (E' : S → Type κ)
      (r : Result A × S)
      → ((a : A) (s : S) → Q a s → Q' a s)
      → ((s : S) → E s → E' s)
      → Outcome Q E r
      → Outcome Q' E' r
  Outcome-mono Q E Q' E' (ok a, s) f g h = f a s h
  Outcome-mono Q E Q' E' (err e, s) f g h = g s h

  -- What holds of a successful outcome.
  pub Outcome-ok {ℓ} :
      (Q : A → S → Type ℓ) (E : S → Type ℓ) (r : Result A × S) {a : A} {s : S}
      → r ≡ (ok a, s)
      → Outcome Q E r
      → Q a s
  Outcome-ok Q E r e h = rw e at h

  pub Outcome-err {ℓ} :
      (Q : A → S → Type ℓ) (E : S → Type ℓ) (r : Result A × S) {e : Error} {s : S}
      → r ≡ (err e, s)
      → Outcome Q E r
      → E s
  Outcome-err Q E r e h = rw e at h

module _ {S A B : Type 0} where
  -- A call, and what follows it.
  pub Outcome-continue {ℓ} :
      (Q : B → S → Type ℓ) (E : S → Type ℓ) (r : Result A × S) (f : A → Exec S B)
      → ((a : A) (s : S) → r ≡ (ok a, s) → Outcome Q E (f a s))
      → ((e : Error) (s : S) → r ≡ (err e, s) → E s)
      → Outcome Q E (continue r f)
  Outcome-continue Q E (ok a, s) f q x = q a s refl
  Outcome-continue Q E (err e, s) f q x = x e s refl

  -- The same, of a call whose error is wrapped.
  pub Outcome-call {ℓ} :
      (Q : B → S → Type ℓ) (E : S → Type ℓ) (prefix : String) (r : Result A × S) (f : A → Exec S B)
      → ((a : A) (s : S) → r ≡ (ok a, s) → Outcome Q E (f a s))
      → ((e : Error) (s : S) → r ≡ (err e, s) → E s)
      → Outcome Q E (continue (prefixed prefix r) f)
  Outcome-call Q E prefix (ok a, s) f q x = q a s refl
  Outcome-call Q E prefix (err e, s) f q x = x e s refl
