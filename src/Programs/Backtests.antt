-- ===== src/Programs/Backtests.antt =====
-- examples/backtest.cpp: the strategies on the daily candles of an instrument. What is printed is left
-- out but for the reports.
use tinkoff_invest_sdkv.Prelude.{
  ℕ, if◌then◌else◌, ltb, List, [], ◌∷◌, length, Option, none, some, Bytes,
}
use tinkoff_invest_sdkv.Prelude.Int.{ℤ, pos, ◌-ℤ◌, ◌*ℤ◌}
use tinkoff_invest_sdkv.Prelude.Word.{to_i64}
use tinkoff_invest_sdkv.Error.{Result, value, error, atoi}
use tinkoff_invest_sdkv.Algo.{Double, Bar, Action}
use tinkoff_invest_sdkv.Algo.Indicators.{num}
use tinkoff_invest_sdkv.Algo.Conversions.{HistoricCandle, to_bar}
use tinkoff_invest_sdkv.Algo.Strategies.{
  sma_cross_on_bar, ema_cross_on_bar, rsi_on_bar, bollinger_on_bar, macd_on_bar, donchian_on_bar,
}
use tinkoff_invest_sdkv.Algo.Setups.{
  Labelled, new_sma_cross, new_ema_cross, new_rsi_reversion, new_bollinger_reversion,
  new_macd_cross, new_donchian_breakout,
}
use tinkoff_invest_sdkv.Algo.Backtest.{BacktestReport, run_backtest}
use tinkoff_invest_sdkv.Programs.{instrument_of}

-- The fields of `GetCandlesRequest` of contracts/marketdata.proto that are set; times in seconds.
pub record GetCandlesRequest : Type 0 where
  pub instrument_id : Bytes
  pub interval : ℤ
  pub from_seconds : ℤ
  pub to_seconds : ℤ

abbrev pub interval_day : ℤ
interval_day = pos 5

abbrev pub Answer : Type 0
Answer = Result (List HistoricCandle)

unfoldable pub days_of : Option Bytes → ℤ
days_of none = pos 365
days_of (some argument) = atoi argument

-- The last days up to now; the difference wraps as a `time_t`.
unfoldable pub history_request : Bytes → ℤ → ℤ → GetCandlesRequest
history_request instrument days now = record {
  instrument_id = instrument;
  interval = interval_day;
  from_seconds = to_i64 (now -ℤ days *ℤ pos 86_400);
  to_seconds = now;
}

module _ (F : Double) where
  -- A report with the name of its strategy, which `run_backtest` copies into it.
  pub record NamedReport : Type 0 where
    pub strategy : Bytes
    pub figures : BacktestReport F

  pub record BacktestExit : Type 0 where
    pub code : ℕ
    pub reports : List NamedReport

  -- The loop that collects the bars.
  unfoldable pub complete_bars : List HistoricCandle → List (Bar F)
  complete_bars [] = []
  complete_bars (c ∷ cs) =
      let rest = complete_bars cs in if c.is_complete then to_bar F c ∷ rest else rest

  -- 0.05 percent for each fill, and 252 bars in a year.
  unfoldable pub backtested :
      {S : Type 0} → Labelled S → (S → Bar F → S × Action) → List (Bar F) → NamedReport
  backtested s on_bar bars = record {
    strategy = s.label;
    figures = run_backtest F on_bar s.strategy bars (F.over (num F 5) (num F 100)) (num F 252);
  }

  unfoldable pub all_reports : List (Bar F) → List NamedReport
  all_reports bars =
      backtested (new_sma_cross F 20 50) (sma_cross_on_bar F) bars
      ∷ backtested (new_ema_cross F 12 26) (ema_cross_on_bar F) bars
      ∷ backtested (new_rsi_reversion F 14 (num F 30) (num F 70)) (rsi_on_bar F) bars
      ∷ backtested (new_bollinger_reversion F 20 (num F 2)) (bollinger_on_bar F) bars
      ∷ backtested (new_macd_cross F 12 26 9) (macd_on_bar F) bars
      ∷ backtested (new_donchian_breakout F 20 10) (donchian_on_bar F) bars
      ∷ []

  unfoldable pub compare_strategies : Answer → BacktestExit
  compare_strategies (error e) = record { code = 1; reports = [] }
  compare_strategies (value candles) =
      let bars = complete_bars candles in
      if ltb (length bars) 60
      then record { code = 1; reports = [] }
      else record { code = 0; reports = all_reports bars }

  -- `main`, over the clock and what the call comes to, with the request that it makes.
  unfoldable pub backtest_main :
      (GetCandlesRequest → Answer)
      → ℤ
      → Option Bytes
      → Option Bytes
      → Option Bytes
      → BacktestExit × List GetCandlesRequest
  backtest_main respond now none instrument days = (record { code = 1; reports = [] }, [])
  backtest_main respond now (some token) instrument days =
      let request = history_request (instrument_of instrument) (days_of days) now in
      (compare_strategies (respond request), request ∷ [])
