-- ===== src/Prelude/Word.antt =====
-- Two's complement: the value of a w-bit signed integer after a cast or an operation that leaves its
-- range, and the ranges in which nothing wraps. `h` is 2 ^ (w - 1).
use tinkoff_invest_sdkv.Prelude.Tests.{ltb, if◌then◌else◌}
use tinkoff_invest_sdkv.Prelude.Int.{ℤ, pos, negsuc, pos_part, neg_part}
use Prim.Native.Nat.{ℕ, ◌-◌, ◌*◌, ◌%◌, ◌^◌, ◌≤◌, ◌<◌}
use mathlib.Core.Path.{◌≡◌}
use native.Mathlib.Omega.{arith}

-- The bit pattern, as a number below 2 h.
to_word : ℕ → ℤ → ℕ
to_word h (pos n) = n % (2 * h)
to_word h (negsuc n) = 2 * h - 1 - n % (2 * h)

of_word : ℕ → ℕ → ℤ
of_word h r = if ltb r h then pos r else negsuc (2 * h - r - 1)

abbrev pub i32_half : ℕ
i32_half = 2 ^ 31

abbrev pub i64_half : ℕ
i64_half = 2 ^ 63

abbrev pub i128_half : ℕ
i128_half = 2 ^ 127

unfoldable pub to_i32 : ℤ → ℤ
unfolding to_word of_word
to_i32 z = of_word i32_half (to_word i32_half z)

unfoldable pub to_i64 : ℤ → ℤ
unfolding to_word of_word
to_i64 z = of_word i64_half (to_word i64_half z)

unfoldable pub to_i128 : ℤ → ℤ
unfolding to_word of_word
to_i128 z = of_word i128_half (to_word i128_half z)

-- The integers of a type.
abbrev pub Fits : ℕ → ℤ → Type 0
Fits h z = (pos_part z < h) × (neg_part z ≤ h)

pub to_i32_id : (z : ℤ) → Fits i32_half z → to_i32 z ≡ z
unfolding to_i32
to_i32_id (pos n) f = ground arith
to_i32_id (negsuc n) f = ground arith

pub to_i64_id : (z : ℤ) → Fits i64_half z → to_i64 z ≡ z
unfolding to_i64
to_i64_id (pos n) f = ground arith
to_i64_id (negsuc n) f = ground arith

pub to_i128_id : (z : ℤ) → Fits i128_half z → to_i128 z ≡ z
unfolding to_i128
to_i128_id (pos n) f = ground arith
to_i128_id (negsuc n) f = ground arith

pub to_i32-Fits : (z : ℤ) → Fits i32_half (to_i32 z)
unfolding to_i32
to_i32-Fits (pos n) = ground arith
to_i32-Fits (negsuc n) = ground arith

pub to_i64-Fits : (z : ℤ) → Fits i64_half (to_i64 z)
unfolding to_i64
to_i64-Fits (pos n) = ground arith
to_i64-Fits (negsuc n) = ground arith
