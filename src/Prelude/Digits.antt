-- ===== src/Prelude/Digits.antt =====
-- `std::to_string` on integers, as bytes.
use Prim.Native.Nat.{ℕ, zero, suc, ◌+◌, ◌/◌, ◌%◌}
use mathlib.Core.List.{[], ◌∷◌, ◌++◌}
use tinkoff_invest_sdkv.Prelude.Tests.{Bytes, ltb, if◌then◌else◌}
use tinkoff_invest_sdkv.Prelude.Int.{ℤ, pos, negsuc}

-- The digits of a number below 10 ^ fuel; twenty digits hold every `uint64_t`.
unfoldable pub to_digits : ℕ → ℕ → Bytes
to_digits zero n = []
to_digits (suc fuel) n =
    let rest = to_digits fuel (n / 10) ++ ((b'0' + n % 10) ∷ []) in
    if ltb n 10 then (b'0' + n) ∷ [] else rest

abbrev pub digit_fuel : ℕ
digit_fuel = 20

unfoldable pub int_to_string : ℤ → Bytes
int_to_string (pos n) = to_digits digit_fuel n
int_to_string (negsuc n) = b'-' ∷ to_digits digit_fuel (suc n)
