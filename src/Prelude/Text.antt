-- ===== src/Prelude/Text.antt =====
-- Text as `fmt.Sprintf` builds it: concatenation, and `%d` for a number that is not negative.
use Prim.Native.Nat.{ℕ, zero, suc, ◌/◌, ◌%◌}
use Prim.Native.String.{String, ◌++◌ as append}
use ledger_engine.Prelude.Tests.{ltb, if◌then◌else◌}

infixr 65 ◌<>◌
abbrev pub ◌<>◌ : String → String → String
s <> t = append s t

-- The character at a place, as a text.
abbrev char_at : String → ℕ → String
char_at String.[] place = ""
char_at (String.◌∷◌ c s) zero = String.◌∷◌ c ""
char_at (String.◌∷◌ c s) (suc place) = char_at s place

decimal_from : ℕ → ℕ → String
decimal_from zero n = ""
decimal_from (suc fuel) n =
    let higher = decimal_from fuel (n / 10) in
    if ltb n 10 then char_at "0123456789" n else higher <> char_at "0123456789" (n % 10)

-- A number has fewer digits than its successor counts.
unfoldable pub decimal : ℕ → String
unfolding decimal_from
decimal n = decimal_from (suc n) n
