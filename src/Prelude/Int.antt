-- ===== src/Prelude/Int.antt =====
-- Signed integers over the native numbers, and the wrap-around of a conversion to a 32-bit int.
use Prim.Native.Nat.{ℕ, ◌-◌, ◌%◌, ◌<◌}
use mathlib.Core.Path.{◌≡◌}
use mathlib.Core.Bool.{Bool, true, false}
use native.Mathlib.Omega.{arith}
use samurai_kirby_server.Prelude.Tests.{ltb, leb, if◌then◌else◌}

-- `negsuc n` is -(n + 1).
pub data ℤ : Type 0 where
  pos : ℕ → ℤ
  negsuc : ℕ → ℤ

abbrev pub leb_ℤ : ℤ → ℤ → Bool
leb_ℤ (pos a) (pos b) = leb a b
leb_ℤ (pos a) (negsuc b) = false
leb_ℤ (negsuc a) (pos b) = true
leb_ℤ (negsuc a) (negsuc b) = leb b a

-- 2 ^ 31 and 2 ^ 32.
abbrev pub int_bound : ℕ
int_bound = 2147483648

abbrev pub int_modulus : ℕ
int_modulus = 4294967296

-- The value that a two's complement `int` keeps of an integer.
pub to_int : ℤ → ℤ
to_int (pos n) =
    let m = n % int_modulus in if ltb m int_bound then pos m else negsuc (int_modulus - m - 1)
to_int (negsuc n) =
    let m = n % int_modulus in if ltb m int_bound then negsuc m else pos (int_modulus - m - 1)

-- A conversion keeps what is in range.
pub to_int-pos : (n : ℕ) → n < int_bound → to_int (pos n) ≡ pos n
unfolding to_int
to_int-pos n h = ground arith
