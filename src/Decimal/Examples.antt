-- ===== src/Decimal/Examples.antt =====
-- Runs of include/tinvest/decimal.hpp on the values of tests/decimal_test.cpp and on a few more.
use tinkoff_invest_sdkv.Decimal.Money.{money_to_string}
use mathlib.Core.List.{◌++◌}
use tinkoff_invest_sdkv.Prelude.{
  ◌≡◌, ◌≢◌, ◌↔◌, ◌⊎◌, refl, ap, inl, inr, arith, true, [], ◌∷◌, none, some, Bytes,
}
use tinkoff_invest_sdkv.Prelude.Int.{
  ℤ, pos, negsuc, neg_part, pos_part, ◌+ℤ◌, ◌*ℤ◌, neg, quot, rem, div, ◌-ℤ◌,
}
use tinkoff_invest_sdkv.Prelude.Word.{to_i128, to_i32, to_i64}
use tinkoff_invest_sdkv.Prelude.Digits.{to_digits, digit_fuel}
use tinkoff_invest_sdkv.Decimal.{
  Decimal, nano_base, make, total, from_total, negate, div_round, mul, eq, align, carry,
  div_rounded, normalize,
}
use tinkoff_invest_sdkv.Decimal.Canonical.{IsCanonical, total_parts, total-from_total}
use tinkoff_invest_sdkv.Decimal.Arith.{negate-negate}
use tinkoff_invest_sdkv.Decimal.Rounding.{IsNearest, IsQuotient, div_round_lem, mul_lem}
use tinkoff_invest_sdkv.Decimal.Order.{eq_iff}
use tinkoff_invest_sdkv.Decimal.Text.{
  to_string, from_string, read_nano, abs_units, fill, finish, finish_nano, finish_units, fraction,
  read_units, strip_zeros,
}
use tinkoff_invest_sdkv.Decimal.RoundTrip.{from_string-to_string}
use tinkoff_invest_sdkv.Decimal.Parsed.{from_string-IsCanonical, from_string_overflow}

-- 114.25 and -1.5.
abbrev price : Decimal
price = record { units = pos 114; nano = pos 250_000_000 }

abbrev debt : Decimal
debt = record { units = negsuc 0; nano = negsuc 499_999_999 }

price-IsCanonical : IsCanonical price
price-IsCanonical = record { small = omega arith; signs = inl (refl, refl); fits = omega arith }

debt-IsCanonical : IsCanonical debt
debt-IsCanonical = record { small = omega arith; signs = inr (refl, refl); fits = omega arith }

-- "114.25".
abbrev price_text : Bytes
price_text = b'1' ∷ b'1' ∷ b'4' ∷ b'.' ∷ b'2' ∷ b'5' ∷ []

to_string_run : to_string price ≡ price_text
unfolding to_string to_digits abs_units fraction strip_zeros fill
to_string_run = refl

from_string_run : from_string price_text ≡ some price
unfolding from_string finish_units read_units finish_nano read_nano finish make normalize align
    carry to_i32 ◌+ℤ◌ to_i64 ◌*ℤ◌
from_string_run = refl

make_run : make (pos 1) (negsuc 499_999_999) ≡ record { units = pos 0; nano = pos 500_000_000 }
unfolding make normalize align carry to_i64 to_i32 ◌-ℤ◌ ◌+ℤ◌
make_run = refl

mul_run : mul price debt ≡ some (record { units = negsuc 170; nano = negsuc 374_999_999 })
unfolding mul div_round from_total to_i64 to_i32 quot rem div_rounded to_i128 ◌*ℤ◌ total ◌+ℤ◌ div
    ◌-ℤ◌
mul_run = refl

from_string-to_string_example : from_string (to_string price) ≡ some price
from_string-to_string_example = from_string-to_string price price-IsCanonical (omega arith)

from_string-IsCanonical_example : IsCanonical price
from_string-IsCanonical_example = from_string-IsCanonical price_text price from_string_run

from_string_overflow_example :
    (u : ℤ) × (from_string (to_digits digit_fuel 9_223_372_036_854_775_808)
      ≡ some (record { units = u; nano = pos 0 }))
    × (u ≢ pos 9_223_372_036_854_775_808)
from_string_overflow_example =
    from_string_overflow 9_223_372_036_854_775_808 (omega arith) (omega arith)

total-from_total_example :
    IsCanonical (from_total (pos 114_250_000_000))
    × (total (from_total (pos 114_250_000_000)) ≡ pos 114_250_000_000)
total-from_total_example = total-from_total (pos 114_250_000_000) (unfold quot in (omega arith))

negate-negate_example : negate (negate debt) ≡ debt
unfolding total quot neg ◌+ℤ◌ ◌*ℤ◌
negate-negate_example = negate-negate debt debt-IsCanonical (omega arith)

div_round_lem_example :
    ((pos 2 ≡ pos 0) × (div_round (negsuc 6) (pos 2) ≡ none))
    ⊎ ((q : ℤ) × (div_round (negsuc 6) (pos 2) ≡ some q) × IsNearest (negsuc 6) (pos 2) q)
div_round_lem_example = div_round_lem (negsuc 6) (pos 2) (omega arith)

mul_lem_example : IsQuotient (total price *ℤ total debt) (pos nano_base) (mul price debt)
unfolding total ◌*ℤ◌ ◌+ℤ◌
mul_lem_example = mul_lem price debt (omega arith)

debt-ne-zero : total debt ≢ pos 0
debt-ne-zero e = omega (arith, total_parts debt, ap neg_part e, ap pos_part e)

eq_iff_example : (eq debt price ≡ true) ↔ (debt ≡ price)
eq_iff_example = eq_iff debt price

-- "RUB".
abbrev rub : Bytes
rub = b'R' ∷ b'U' ∷ b'B' ∷ []

money_run : money_to_string (record { currency = rub; amount = price }) ≡ price_text ++ b' ' ∷ rub
unfolding money_to_string to_string to_digits abs_units fraction strip_zeros fill
money_run = refl
