-- ===== src/Decimal/Text.antt =====
-- `Decimal::to_string` and `Decimal::from_string` of include/tinvest/decimal.hpp, over bytes.
use tinkoff_invest_sdkv.Prelude.{
  ℕ, zero, suc, ◌+◌, ◌-◌, ◌*◌, ◌/◌, ◌%◌, ◌^◌, Bool, true, false, ◌&&◌, ◌||◌, if◌then◌else◌, leb,
  ◌==◌, [], ◌∷◌, ◌++◌, Option, none, some, Bytes,
}
use tinkoff_invest_sdkv.Prelude.Int.{ℤ, pos, negsuc, ◌+ℤ◌, ◌*ℤ◌, neg, is_neg, magnitude}
use tinkoff_invest_sdkv.Prelude.Word.{to_i32, to_i64}
use tinkoff_invest_sdkv.Prelude.Digits.{to_digits, digit_fuel}
use tinkoff_invest_sdkv.Decimal.{Decimal, make}

-- |units| as a `uint64_t`: for a negative number -(units + 1), and then plus one.
unfoldable pub abs_units : ℤ → ℕ
abs_units (pos n) = n % 2 ^ 64
abs_units (negsuc n) = (n % 2 ^ 64 + 1) % 2 ^ 64

-- `buf[i] = '0' + frac % 10; frac /= 10`, from the last place to the first.
unfoldable pub fill : ℕ → ℕ → Bytes → Bytes
fill zero frac buf = buf
fill (suc i) frac buf = fill i (frac / 10) ((b'0' + frac % 10) ∷ buf)

unfoldable pub keep_unless_zero : ℕ → Bytes → Bytes
keep_unless_zero c [] = if c == b'0' then [] else c ∷ []
keep_unless_zero c (e ∷ s) = c ∷ e ∷ s

-- `while (len > 0 && buf[len - 1] == '0') --len`.
unfoldable pub strip_zeros : Bytes → Bytes
unfolding keep_unless_zero
strip_zeros [] = []
strip_zeros (c ∷ s) = keep_unless_zero c (strip_zeros s)

unfoldable pub fraction : ℕ → Bytes
fraction frac = if frac == 0 then [] else b'.' ∷ strip_zeros (fill 9 frac [])

unfoldable pub to_string : Decimal → Bytes
to_string d =
    (if is_neg d.units || is_neg d.nano then b'-' ∷ [] else [])
    ++ (to_digits digit_fuel (abs_units d.units) ++ fraction (magnitude d.nano % 2 ^ 32))

abbrev pub is_digit : ℕ → Bool
is_digit c = leb b'0' c && leb c b'9'

-- The first loop of `from_string`: the units, whether a digit was read, and what is left.
unfoldable pub read_units : Bytes → ℤ → Bool → ℤ × Bool × Bytes
read_units [] units any = (units, any, [])
read_units (c ∷ s) units any =
    let rest = read_units s (to_i64 (to_i64 (units *ℤ pos 10) +ℤ pos (c - b'0'))) true in
    if is_digit c then rest else (units, any, c ∷ s)

-- The second loop: each digit counts `scale`, which falls to zero after the ninth.
unfoldable pub read_nano : Bytes → ℤ → ℕ → Bool → ℤ × Bool × Bytes
read_nano [] nano scale any = (nano, any, [])
read_nano (c ∷ s) nano scale any =
    let rest = read_nano s (to_i32 (nano +ℤ to_i32 (pos ((c - b'0') * scale)))) (scale / 10) true in
    if is_digit c then rest else (nano, any, c ∷ s)

-- The last two lines of `from_string`.
unfoldable pub finish : Bool → ℤ → ℤ → Bool → Option Decimal
finish minus units nano any =
    if any
    then some (if minus then make (to_i64 (neg units)) (to_i32 (neg nano)) else make units nano)
    else none

-- What follows the second loop: nothing may be left.
unfoldable pub finish_nano : Bool → ℤ → ℤ × Bool × Bytes → Option Decimal
finish_nano minus units (nano, any, []) = finish minus units nano any
finish_nano minus units (nano, any, c ∷ s) = none

-- What follows the first loop: the end, or a point or comma and the fraction.
unfoldable pub finish_units : Bool → ℤ × Bool × Bytes → Option Decimal
finish_units minus (units, any, []) = finish minus units (pos 0) any
finish_units minus (units, any, c ∷ s) =
    if c == b'.' || c == b','
    then finish_nano minus units (read_nano s (pos 0) 100_000_000 any)
    else none

unfoldable pub from_string : Bytes → Option Decimal
from_string [] = none
from_string (c ∷ s) =
    if c == b'-' || c == b'+'
    then finish_units (c == b'-') (read_units s (pos 0) false)
    else finish_units false (read_units (c ∷ s) (pos 0) false)
