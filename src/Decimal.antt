-- ===== src/Decimal.antt =====
-- `class Decimal` of include/tinvest/decimal.hpp: the constructor, the arithmetic and the comparisons.
-- A number is `units + nano / 10 ^ 9`. Integers are ℤ with each cast and each operation that can
-- leave its type wrapped; sums of two totals stay far inside `__int128` and are not.
pub mod Canonical
pub mod Arith
pub mod Rounding
pub mod Order
pub mod Text
pub mod ReadBack
pub mod RoundTrip
pub mod Parsed
pub mod Money
mod Examples
use tinkoff_invest_sdkv.Prelude.{
  ℕ, Bool, true, false, not, ◌&&◌, ◌||◌, if◌then◌else◌, Option, none, some, bool_eq,
}
use mathlib.Core.Option
use tinkoff_invest_sdkv.Prelude.Int.{
  ℤ, pos, negsuc, ◌+ℤ◌, ◌-ℤ◌, ◌*ℤ◌, neg, leb_ℤ, ltb_ℤ, eqb_ℤ, is_neg, quot, rem, div,
}
use tinkoff_invest_sdkv.Prelude.Word.{to_i32, to_i64, to_i128}

abbrev pub nano_base : ℕ
nano_base = 1_000_000_000

pub record Decimal : Type 0 where
  pub units : ℤ
  pub nano : ℤ

-- The first `if` of `normalize`: whole units leave the nano part.
unfoldable pub carry : Decimal → Decimal
carry d =
    if leb_ℤ d.nano (negsuc 999_999_999) || leb_ℤ (pos nano_base) d.nano
    then record {
      units = to_i64 (d.units +ℤ to_i64 (quot d.nano nano_base));
      nano = to_i32 (rem d.nano nano_base);
    }
    else d

-- The second `if` of `normalize`: the two parts get one sign.
unfoldable pub align : Decimal → Decimal
align d =
    if ltb_ℤ (pos 0) d.units && ltb_ℤ d.nano (pos 0)
    then record { units = to_i64 (d.units -ℤ pos 1); nano = to_i32 (d.nano +ℤ pos nano_base) }
    else if ltb_ℤ d.units (pos 0) && ltb_ℤ (pos 0) d.nano
    then record { units = to_i64 (d.units +ℤ pos 1); nano = to_i32 (d.nano -ℤ pos nano_base) }
    else d

unfoldable pub normalize : Decimal → Decimal
normalize d = align (carry d)

-- The constructor `Decimal(units, nano)`.
unfoldable pub make : ℤ → ℤ → Decimal
make units nano = normalize (record { units = units; nano = nano })

unfoldable pub total : Decimal → ℤ
total d = d.units *ℤ pos nano_base +ℤ d.nano

unfoldable pub from_total : ℤ → Decimal
from_total t = record { units = to_i64 (quot t nano_base); nano = to_i32 (rem t nano_base) }

unfoldable pub add : Decimal → Decimal → Decimal
add a b = from_total (total a +ℤ total b)

unfoldable pub sub : Decimal → Decimal → Decimal
sub a b = from_total (total a -ℤ total b)

unfoldable pub negate : Decimal → Decimal
negate a = from_total (neg (total a))

-- The quotient that `div_round` returns when the divisor is not zero.
unfoldable pub div_rounded : ℤ → ℤ → ℤ
div_rounded num den =
    let half = quot den 2 in
    if bool_eq (not (is_neg num)) (not (is_neg den))
    then div (to_i128 (num +ℤ half)) den
    else div (to_i128 (num -ℤ half)) den

-- A division by zero traps: `none`.
unfoldable pub div_round : ℤ → ℤ → Option ℤ
div_round num den = if eqb_ℤ den (pos 0) then none else some (div_rounded num den)

unfoldable pub mul : Decimal → Decimal → Option Decimal
mul a b = Option.map from_total (div_round (to_i128 (total a *ℤ total b)) (pos nano_base))

-- `operator*(Decimal, int64_t)`.
unfoldable pub scale : Decimal → ℤ → Decimal
scale a k = from_total (to_i128 (total a *ℤ k))

-- `operator/(Decimal, int64_t)`.
unfoldable pub div_by : Decimal → ℤ → Option Decimal
div_by a k = Option.map from_total (div_round (total a) k)

-- `operator/(Decimal, Decimal)`.
unfoldable pub ratio : Decimal → Decimal → Option Decimal
ratio a b = Option.map from_total (div_round (to_i128 (total a *ℤ pos nano_base)) (total b))

unfoldable pub is_zero : Decimal → Bool
is_zero d = eqb_ℤ d.units (pos 0) && eqb_ℤ d.nano (pos 0)

-- `operator==` and `operator<`; the other four are made of these.
unfoldable pub eq : Decimal → Decimal → Bool
eq a b = eqb_ℤ a.units b.units && eqb_ℤ a.nano b.nano

unfoldable pub lt : Decimal → Decimal → Bool
lt a b = ltb_ℤ (total a) (total b)

unfoldable pub gt : Decimal → Decimal → Bool
gt a b = lt b a

unfoldable pub le : Decimal → Decimal → Bool
le a b = not (lt b a)

unfoldable pub ge : Decimal → Decimal → Bool
ge a b = not (lt a b)

unfoldable pub ne : Decimal → Decimal → Bool
ne a b = not (eq a b)
