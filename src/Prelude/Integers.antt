-- ===== src/Prelude/Integers.antt =====
-- Signed integers: `int`, `int32_t` values are integers, with the range of the C++ type written out
-- where the program can leave it. `negsuc n` is -(n + 1).
use Prim.Native.Nat.{ℕ, zero, suc, ◌-◌, ◌/◌, ◌%◌, ◌≤◌, ◌<◌}
use mathlib.Core.Path.{◌≡◌}
use mathlib.Core.Logic.{◌↔◌}
use mathlib.Core.Bool.{Bool, true, false}
use native.Mathlib.Omega.{arith}
use toy_dfs.Prelude.Logic.{Eq, nat_beq, ltb, if◌then◌else◌}

pub data ℤ : Type 0 where
  pos : ℕ → ℤ
  negsuc : ℕ → ℤ

-- The integer `n`, or 0 if it is negative.
abbrev pub pos_part : ℤ → ℕ
pos_part (pos n) = n
pos_part (negsuc n) = 0

abbrev pub neg : ℕ → ℤ
neg zero = pos 0
neg (suc n) = negsuc n

-- n > 0
abbrev pub is_positive : ℤ → Bool
is_positive (pos n) = ltb 0 n
is_positive (negsuc n) = false

-- C++ division and remainder by a positive number round towards zero.
unfoldable pub div_trunc : ℤ → ℕ → ℤ
div_trunc (pos n) k = pos (n / k)
div_trunc (negsuc n) k = neg (suc n / k)

unfoldable pub mod_trunc : ℤ → ℕ → ℤ
mod_trunc (pos n) k = pos (n % k)
mod_trunc (negsuc n) k = neg (suc n % k)

abbrev pub int_max : ℕ
int_max = 2147483647

-- `fetch_add(1)` on a `std::atomic<int32_t>`: two's complement, it wraps.
unfoldable pub increment : ℤ → ℤ
increment (pos n) = if nat_beq n int_max then negsuc int_max else pos (suc n)
increment (negsuc zero) = pos 0
increment (negsuc (suc n)) = negsuc n

-- The conversion of a 64-bit unsigned number to `int` keeps the low 32 bits.
unfoldable pub to_int32 : ℕ → ℤ
to_int32 n = let low = n % 4294967296 in if ltb int_max low then neg (4294967296 - low) else pos low

abbrev pub int_beq : ℤ → ℤ → Bool
int_beq (pos a) (pos b) = nat_beq a b
int_beq (pos a) (negsuc b) = false
int_beq (negsuc a) (pos b) = false
int_beq (negsuc a) (negsuc b) = nat_beq a b

pub int_beq_iff : (a b : ℤ) → (int_beq a b ≡ true) ↔ (a ≡ b)
int_beq_iff (pos a) (pos b) = ground arith
int_beq_iff (pos a) (negsuc b) = ground arith
int_beq_iff (negsuc a) (pos b) = ground arith
int_beq_iff (negsuc a) (negsuc b) = ground arith

instance abbrev pub int_eq : Eq ℤ
int_eq = record { equal = int_beq; equal_iff = int_beq_iff }

pub increment-pos : (n : ℕ) → n < int_max → increment (pos n) ≡ pos (suc n)
unfolding increment
increment-pos n h = ground arith

pub to_int32-small : (n : ℕ) → n ≤ int_max → to_int32 n ≡ pos n
unfolding to_int32
to_int32-small n h = ground arith
