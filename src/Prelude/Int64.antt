-- ===== src/Prelude/Int64.antt =====
-- Go's int64, as its 64-bit two's complement pattern: a number below 2 ^ 64. The pattern w stands
-- for w below 2 ^ 63, and for w - 2 ^ 64 from there on. Sums and differences wrap, as in Go.
use Prim.Native.Nat.{ℕ, ◌+◌, ◌-◌, ◌^◌, ◌%◌, ◌<◌}
use mathlib.Core.Path.{◌≡◌}
use mathlib.Core.Bool.{Bool}
use native.Mathlib.Omega.{arith}
use ledger_engine.Prelude.Tests.{leb}

abbrev pub Int64 : Type 0
Int64 = ℕ

abbrev pub modulus : ℕ
modulus = 2 ^ 64

-- The pattern is one of 64 bits.
abbrev pub IsInt64 : Int64 → Type 0
IsInt64 a = a < modulus

unfoldable pub add64 : Int64 → Int64 → Int64
add64 a b = (a + b) % modulus

unfoldable pub sub64 : Int64 → Int64 → Int64
sub64 a b = (a + (modulus - b % modulus)) % modulus

-- -a
unfoldable pub neg64 : Int64 → Int64
unfolding sub64
neg64 a = sub64 0 a

-- a < 0
abbrev pub is_negative : Int64 → Bool
is_negative a = leb (2 ^ 63) a

pub add64-IsInt64 : (a b : Int64) → IsInt64 (add64 a b)
unfolding add64
add64-IsInt64 a b = omega arith

pub sub64-IsInt64 : (a b : Int64) → IsInt64 (sub64 a b)
unfolding sub64
sub64-IsInt64 a b = omega arith

pub add64_comm : (a b : Int64) → add64 a b ≡ add64 b a
unfolding add64
add64_comm a b = omega arith

pub add64_assoc : (a b c : Int64) → add64 (add64 a b) c ≡ add64 a (add64 b c)
unfolding add64
add64_assoc a b c = omega arith

pub sub64-add64 : (a b : Int64) → IsInt64 a → sub64 (add64 a b) b ≡ a
unfolding add64 sub64
sub64-add64 a b h = omega arith

pub add64-sub64 : (a b : Int64) → IsInt64 a → add64 (sub64 a b) b ≡ a
unfolding add64 sub64
add64-sub64 a b h = omega arith

pub add64-neg64 : (a b : Int64) → add64 a (neg64 b) ≡ sub64 a b
unfolding add64 neg64 sub64
add64-neg64 a b = omega arith

pub sub64_self : (a : Int64) → sub64 a a ≡ 0
unfolding sub64
sub64_self a = omega arith

pub add64-zero : (a : Int64) → IsInt64 a → add64 a 0 ≡ a
unfolding add64
add64-zero a h = omega arith

pub zero-add64 : (a : Int64) → IsInt64 a → add64 0 a ≡ a
unfolding add64
zero-add64 a h = omega arith

-- The order of int64 as that of ℕ: a ≤ b is rank64 a ≤ rank64 b.
abbrev pub rank64 : Int64 → ℕ
rank64 a = (a + 2 ^ 63) % modulus
