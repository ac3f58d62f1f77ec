-- ===== src/Algo/Setups.antt =====
-- The constructors and the labels of include/tinvest/algo/strategies.hpp; `name` returns the label.
use tinkoff_invest_sdkv.Prelude.{ℕ, [], ◌++◌, Bytes}
use tinkoff_invest_sdkv.Prelude.Codes.{codes}
use tinkoff_invest_sdkv.Prelude.Digits.{int_to_string}
use tinkoff_invest_sdkv.Prelude.Int.{pos}
use tinkoff_invest_sdkv.Algo.{Double}
use tinkoff_invest_sdkv.Algo.Indicators.{Bollinger, new_sma, new_ema, new_rsi}
use tinkoff_invest_sdkv.Algo.Strategies.{
  SmaCross, EmaCross, RsiReversion, MacdCross, DonchianBreakout, new_cross,
}

-- A strategy with its label.
pub record Labelled (S : Type 0) : Type 0 where
  pub label : Bytes
  pub strategy : S

abbrev digits : ℕ → Bytes
digits n = int_to_string (pos n)

module _ (F : Double) where
  unfoldable pub new_sma_cross : ℕ → ℕ → Labelled (SmaCross F)
  new_sma_cross fast slow = record {
    label = codes "SMA cross " ++ digits fast ++ codes "/" ++ digits slow;
    strategy = record { fast = new_sma F fast; slow = new_sma F slow; cross = new_cross };
  }

  unfoldable pub new_ema_cross : ℕ → ℕ → Labelled (EmaCross F)
  new_ema_cross fast slow = record {
    label = codes "EMA cross " ++ digits fast ++ codes "/" ++ digits slow;
    strategy = record { fast = new_ema F fast; slow = new_ema F slow; cross = new_cross };
  }

  unfoldable pub new_rsi_reversion : ℕ → F.Carrier → F.Carrier → Labelled (RsiReversion F)
  new_rsi_reversion period low_level high_level = record {
    label = codes "RSI(" ++ digits period ++ codes ") reversion";
    strategy = record { rsi = new_rsi F period; low_level = low_level; high_level = high_level };
  }

  unfoldable pub new_bollinger_reversion : ℕ → F.Carrier → Labelled (Bollinger F)
  new_bollinger_reversion period stddev_mult = record {
    label = codes "Bollinger(" ++ digits period ++ codes ") reversion";
    strategy = record { period = period; mult = stddev_mult; window = [] };
  }

  unfoldable pub new_macd_cross : ℕ → ℕ → ℕ → Labelled (MacdCross F)
  new_macd_cross fast slow signal = record {
    label = codes "MACD " ++ digits fast ++ codes "/" ++ digits slow ++ codes "/" ++ digits signal;
    strategy = record {
      macd = record { fast = new_ema F fast; slow = new_ema F slow; signal = new_ema F signal };
      cross = new_cross;
    };
  }

  unfoldable pub new_donchian_breakout : ℕ → ℕ → Labelled (DonchianBreakout F)
  new_donchian_breakout entry exit = record {
    label = codes "Donchian breakout " ++ digits entry ++ codes "/" ++ digits exit;
    strategy = record {
      entry = record { period = entry; highs = []; lows = [] };
      exit = record { period = exit; highs = []; lows = [] };
    };
  }
