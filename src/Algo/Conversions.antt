-- ===== src/Algo/Conversions.antt =====
-- The conversions between doubles and the numbers of the API: `to_double` and `from_double` of
-- include/tinvest/decimal.hpp, and `to_bar` of include/tinvest/algo/strategy.hpp.
use tinkoff_invest_sdkv.Prelude.{Bool, if◌then◌else◌}
use tinkoff_invest_sdkv.Prelude.Int.{ℤ, pos, ◌+ℤ◌, ◌*ℤ◌}
use tinkoff_invest_sdkv.Decimal.{Decimal, nano_base, from_total}
use tinkoff_invest_sdkv.Decimal.Money.{Quotation, of_quotation}
use tinkoff_invest_sdkv.Algo.{Double, Bar}
use tinkoff_invest_sdkv.Algo.Indicators.{num}

-- `HistoricCandle` of contracts/marketdata.proto; the time in seconds.
pub record HistoricCandle : Type 0 where
  pub open_price : Quotation
  pub high : Quotation
  pub low : Quotation
  pub close : Quotation
  pub volume : ℤ
  pub time : ℤ
  pub is_complete : Bool

module _ (F : Double) where
  unfoldable pub to_double : Decimal → F.Carrier
  to_double d = F.plus (F.of_int d.units) (F.over (F.of_int d.nano) (num F nano_base))

  -- `std::floor`, the cast to `int64_t` and `std::llround` are parameters.
  unfoldable pub from_double :
      (F.Carrier → F.Carrier) → (F.Carrier → ℤ) → (F.Carrier → ℤ) → F.Carrier → Decimal
  from_double floor to_int llround v =
      let u = if F.less v (num F 0) then F.opposite (floor (F.opposite v)) else floor v in
      let nano = llround (F.times (F.minus v u) (num F nano_base)) in
      from_total (to_int u *ℤ pos nano_base +ℤ nano)

  unfoldable pub to_bar : HistoricCandle → Bar F
  to_bar c = record {
    time = c.time;
    open_price = to_double (of_quotation c.open_price);
    high = to_double (of_quotation c.high);
    low = to_double (of_quotation c.low);
    close = to_double (of_quotation c.close);
    volume = F.of_int c.volume;
  }
