-- ===== src/Prelude/Dict.antt =====
-- A Go map with string keys, as an association list.
use Prim.Native.String.{String}
use mathlib.Core.Path.{◌≡◌, refl}
use mathlib.Core.Option.{Option, none, some}
use mathlib.Core.List.{List, [], ◌∷◌}
use native.Mathlib.Omega.{arith}
use text.Mathlib.Text.{◌==◌}
use text.Mathlib.TextEquality.{eq_iff}
use ledger_engine.Prelude.Tests.{if◌then◌else◌}

abbrev pub Dict : Type 0 → Type 0
Dict V = List (String × V)

module _ {V : Type 0} where
  -- v, ok := m[k]
  unfoldable pub lookup : String → Dict V → Option V
  lookup k [] = none
  lookup k ((j, v) ∷ m) = if j == k then some v else lookup k m

  -- m[k] = v
  unfoldable pub insert : String → V → Dict V → Dict V
  insert k v [] = (k, v) ∷ []
  insert k v ((j, w) ∷ m) = if j == k then (k, v) ∷ m else (j, w) ∷ insert k v m

  -- the values, in one order of iteration
  abbrev pub values : Dict V → List V
  values [] = []
  values ((_, v) ∷ m) = v ∷ values m

  pub lookup-insert :
      (set get : String) (new : V) (m : Dict V)
      → lookup get (insert set new m) ≡ (if set == get then some new else lookup get m)
  unfolding lookup insert
  lookup-insert set get new [] = refl
  lookup-insert set get new ((key, old) ∷ rest) =
      let later = lookup-insert set get new rest in
      ground (later, arith, eq_iff key get, eq_iff key set, eq_iff set get)
