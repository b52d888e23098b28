-- ===== src/Base/Int.antt =====
-- Go's `int`, over the native numbers: `negsuc n` is -(n + 1).
pub mod Order
use zentao_mcp.Base.Tests.{ltb, ◌==◌, if◌then◌else◌}
use Prim.Native.Nat.{ℕ, zero, suc, ◌+◌, ◌-◌, ◌%◌, ◌^◌, ◌<◌}
use mathlib.Core.Bool.{Bool, true, false}
use native.Mathlib.Omega.{arith}

pub data ℤ : Type 0 where
  pos : ℕ → ℤ
  negsuc : ℕ → ℤ

-- `if o <= 0 { o = d }`: the positive number that an option stands for.
unfoldable pub or_default : ℕ → ℤ → ℕ
or_default d (pos zero) = d
or_default d (pos (suc n)) = suc n
or_default d (negsuc n) = d

pub or_default-pos : (d : ℕ) (z : ℤ) → 0 < d → 0 < or_default d z
unfolding or_default
or_default-pos d (pos zero) h = h
or_default-pos d (pos (suc n)) h = omega arith
or_default-pos d (negsuc n) h = h

-- The number if it is positive, else 0.
unfoldable pub to_nat : ℤ → ℕ
to_nat (pos n) = n
to_nat (negsuc n) = 0

unfoldable pub is_positive : ℤ → Bool
unfolding to_nat
is_positive z = ltb 0 (to_nat z)

unfoldable pub is_negative : ℤ → Bool
is_negative (pos n) = false
is_negative (negsuc n) = true

unfoldable pub int_less : ℤ → ℤ → Bool
int_less (pos a) (pos b) = ltb a b
int_less (pos a) (negsuc b) = false
int_less (negsuc a) (pos b) = true
int_less (negsuc a) (negsuc b) = ltb b a

unfoldable pub int_eq : ℤ → ℤ → Bool
int_eq (pos a) (pos b) = a == b
int_eq (pos a) (negsuc b) = false
int_eq (negsuc a) (pos b) = false
int_eq (negsuc a) (negsuc b) = a == b

-- The 64 bits of an integer, as a number.
unfoldable pub to_word : ℤ → ℕ
to_word (pos n) = n % 2 ^ 64
to_word (negsuc n) = 2 ^ 64 - 1 - n % 2 ^ 64

unfoldable pub of_word : ℕ → ℤ
of_word w = if ltb w (2 ^ 63) then pos w else negsuc (2 ^ 64 - 1 - w)

-- `a - b` of two values of type int, which wraps around.
infixl 65 ◌-ℤ◌
unfoldable pub ◌-ℤ◌ : ℤ → ℤ → ℤ
unfolding to_word of_word
a -ℤ b = of_word ((to_word a + 2 ^ 64 - to_word b) % 2 ^ 64)
