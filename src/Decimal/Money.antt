-- ===== src/Decimal/Money.antt =====
-- `Quotation`, `MoneyValue` and `Money` of include/tinvest/decimal.hpp.
use tinkoff_invest_sdkv.Prelude.{◌≡◌, arith, Bool, ◌&&◌, ◌∷◌, ◌++◌, Bytes, bytes_eq}
use tinkoff_invest_sdkv.Prelude.Int.{ℤ}
use tinkoff_invest_sdkv.Decimal.{Decimal, make, normalize, carry, align, eq}
use tinkoff_invest_sdkv.Decimal.Canonical.{IsCanonical}
use tinkoff_invest_sdkv.Decimal.Text.{to_string}

pub record Quotation : Type 0 where
  pub units : ℤ
  pub nano : ℤ

pub record MoneyValue : Type 0 where
  pub currency : Bytes
  pub units : ℤ
  pub nano : ℤ

-- `Decimal(const pb::Quotation&)` and `Decimal(const pb::MoneyValue&)`.
unfoldable pub of_quotation : Quotation → Decimal
of_quotation q = make q.units q.nano

unfoldable pub of_money_value : MoneyValue → Decimal
of_money_value m = make m.units m.nano

unfoldable pub to_quotation : Decimal → Quotation
to_quotation d = record { units = d.units; nano = d.nano }

unfoldable pub to_money : Decimal → Bytes → MoneyValue
to_money d currency = record { currency = currency; units = d.units; nano = d.nano }

pub record Money : Type 0 where
  pub currency : Bytes
  pub amount : Decimal

unfoldable pub money_of : MoneyValue → Money
unfolding of_money_value
money_of m = record { currency = m.currency; amount = of_money_value m }

unfoldable pub to_pb : Money → MoneyValue
unfolding to_money
to_pb m = to_money m.amount m.currency

unfoldable pub money_to_string : Money → Bytes
money_to_string m = to_string m.amount ++ b' ' ∷ m.currency

unfoldable pub money_eq : Money → Money → Bool
money_eq a b = bytes_eq a.currency b.currency && eq a.amount b.amount

-- The constructor leaves a canonical number as it is.
make-canonical : (d : Decimal) → IsCanonical d → make d.units d.nano ≡ d
unfolding make normalize carry align
make-canonical d c = ground (arith, c.small, c.signs)

-- Canonical numbers and amounts of money survive the trip through the messages of the API.
pub messages_roundtrip :
    (d : Decimal) (currency : Bytes)
    → IsCanonical d
    → let m : Money = record { currency = currency; amount = d } in
      (of_quotation (to_quotation d) ≡ d)
      × (of_money_value (to_money d currency) ≡ d)
      × (money_of (to_pb m) ≡ m)
unfolding of_quotation to_quotation of_money_value to_money money_of to_pb
messages_roundtrip d currency c =
    let e = make-canonical d c in (e, e, λ i. record { currency = currency; amount = e i })
