-- ===== src/PaperTrade/Examples.antt =====
-- A run of examples/paper_trade.cpp with whole numbers in place of `double`.
use tinkoff_invest_sdkv.Prelude.{◌≡◌, refl, List, [], ◌∷◌, map, none, some}
use tinkoff_invest_sdkv.Prelude.Int.{
  ℤ, pos, ◌+ℤ◌, ◌-ℤ◌, ◌*ℤ◌, neg, quot, ltb_ℤ, eqb_ℤ, pos_part, rem,
}
use tinkoff_invest_sdkv.Decimal.Money.{Quotation, of_quotation}
use tinkoff_invest_sdkv.Algo.{Double, Bar}
use tinkoff_invest_sdkv.Algo.Conversions.{to_double}
use tinkoff_invest_sdkv.PaperTrade.{new_paper, bought, sold, on_last_price, tick, trade, pnl}
use tinkoff_invest_sdkv.Algo.Indicators.{
  push_ema, sma_ready, sma_value, front, pop_front, push_sma, slide,
}
use tinkoff_invest_sdkv.Decimal.{make, normalize, align, carry}
use tinkoff_invest_sdkv.Prelude.Word.{to_i32, to_i64}
use tinkoff_invest_sdkv.PaperTrade.Follows.{
  paper_run, follow, strategy_of, account_of, paper_run-follow,
}

-- Whole numbers; a square root is not needed here.
abbrev rounded : Double
rounded = record {
  Carrier = ℤ;
  plus = λ a b. a +ℤ b;
  minus = λ a b. a -ℤ b;
  times = λ a b. a *ℤ b;
  over = λ a b. quot a (pos_part b);
  less = ltb_ℤ;
  equal = eqb_ℤ;
  opposite = neg;
  sqrt = λ a. a;
  of_int = λ n. n;
}

abbrev whole_price : ℤ → Quotation
whole_price units = record { units = units; nano = pos 0 }

abbrev prices : List Quotation
prices =
    whole_price (pos 9)
    ∷ whole_price (pos 3)
    ∷ whole_price (pos 2)
    ∷ whole_price (pos 8)
    ∷ whole_price (pos 1)
    ∷ []

abbrev flat_bar : Quotation → Bar rounded
flat_bar q =
    let price = to_double rounded (of_quotation q) in
    record {
      time = pos 0;
      open_price = price;
      high = price;
      low = price;
      close = price;
      volume = pos 0;
    }

paper_run-follow_example :
    let p = new_paper rounded 1 2 in
    paper_run rounded p prices
    ≡ follow rounded (strategy_of rounded p) (account_of rounded p) (map flat_bar prices)
paper_run-follow_example =
    paper_run-follow rounded (new_paper rounded 1 2) flat_bar prices (λ q. refl)

fills_run :
    (paper_run rounded (new_paper rounded 1 2) prices).1
    ≡ none ∷ none ∷ none ∷ some (bought (pos 8)) ∷ some (sold (pos 1) (neg (pos 100))) ∷ []
unfolding paper_run on_last_price tick push_ema sma_ready trade ◌+ℤ◌ ◌*ℤ◌ to_double of_quotation
    make normalize align carry quot sma_value ◌-ℤ◌ neg pnl front pop_front push_sma slide rem to_i32
    to_i64
fills_run = refl
