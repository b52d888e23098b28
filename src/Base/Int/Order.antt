-- ===== src/Base/Int/Order.antt =====
-- The order of the integers, and the sign of a difference that does not wrap around.
use zentao_mcp.Base.Int.{ℤ, pos, negsuc, to_nat, is_positive, is_negative, int_less, ◌-ℤ◌}
use Prim.Native.Nat.{◌<◌, ◌^◌}
use mathlib.Core.Path.{◌≡◌, refl}
use mathlib.Core.Bool.{true, false}
use native.Mathlib.Omega.{arith}

-- Below 2^62 in size.
abbrev pub IsSmall : ℤ → Type 0
IsSmall (pos n) = n < 2 ^ 62
IsSmall (negsuc n) = n < 2 ^ 62

pub is_positive-sub : (a b : ℤ) → IsSmall a → IsSmall b → is_positive (a -ℤ b) ≡ int_less b a
unfolding is_positive to_nat int_less ◌-ℤ◌
is_positive-sub (pos a) (pos b) h k = ground arith
is_positive-sub (pos a) (negsuc b) h k = ground arith
is_positive-sub (negsuc a) (pos b) h k = ground arith
is_positive-sub (negsuc a) (negsuc b) h k = ground arith

pub is_negative-sub : (a b : ℤ) → IsSmall a → IsSmall b → is_negative (a -ℤ b) ≡ int_less a b
unfolding is_negative int_less ◌-ℤ◌
is_negative-sub (pos a) (pos b) h k = ground arith
is_negative-sub (pos a) (negsuc b) h k = ground arith
is_negative-sub (negsuc a) (pos b) h k = ground arith
is_negative-sub (negsuc a) (negsuc b) h k = ground arith

pub int_less_asym : (a b : ℤ) → int_less a b ≡ true → int_less b a ≡ false
unfolding int_less
int_less_asym (pos a) (pos b) h = ground arith
int_less_asym (pos a) (negsuc b) h = absurd (ground arith)
int_less_asym (negsuc a) (pos b) h = refl
int_less_asym (negsuc a) (negsuc b) h = ground arith

pub int_less_trans :
    (a b c : ℤ) → int_less b a ≡ false → int_less c b ≡ false → int_less c a ≡ false
unfolding int_less
int_less_trans (pos a) (pos b) (pos c) h k = ground arith
int_less_trans (pos a) (pos b) (negsuc c) h k = absurd (ground arith)
int_less_trans (pos a) (negsuc b) c h k = absurd (ground arith)
int_less_trans (negsuc a) (pos b) (pos c) h k = refl
int_less_trans (negsuc a) (pos b) (negsuc c) h k = absurd (ground arith)
int_less_trans (negsuc a) (negsuc b) (pos c) h k = refl
int_less_trans (negsuc a) (negsuc b) (negsuc c) h k = ground arith
