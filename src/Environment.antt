-- ===== src/Environment.antt =====
-- What the program takes from outside: the clock (`time.Now`), and package google/uuid. A UUID is
-- its sixteen bytes, read as one number; `uuid.Nil` is 0.
use ledger_engine.Prelude.{ℕ, String, ◌≡◌}
use ledger_engine.Errors.{Result, ok}

abbrev pub Time : Type 0
Time = ℕ

abbrev pub Uuid : Type 0
Uuid = ℕ

-- uuid.Parse and UUID.String: what is printed is read back.
pub record UuidLib : Type 0 where
  pub parse : String → Result Uuid
  pub to_string : Uuid → String
  pub parse-to_string : (u : Uuid) → parse (to_string u) ≡ ok u

-- time.Now().UTC() and uuid.Must(uuid.NewV7()), which read a state of the world.
pub record Env (S : Type 0) : Type 0 where
  pub now : S → Time × S
  pub new_uuid : S → Uuid × S
