-- ===== src/Programs/History.antt =====
-- The reports of examples/backtest.cpp on candles in the order of their times.
use tinkoff_invest_sdkv.Prelude.{
  ◌≡◌, refl, arith, ◌≤◌, ◌⊎◌, inl, inr, ltb, List, [], ◌∷◌, length, Option, some, Bytes, All,
  Bool-cases,
}
use tinkoff_invest_sdkv.Prelude.Int.{ℤ, ◌≤ℤ◌}
use tinkoff_invest_sdkv.Error.{value}
use tinkoff_invest_sdkv.Algo.{Double, Bar, Action}
use tinkoff_invest_sdkv.Algo.Conversions.{HistoricCandle, to_bar}
use tinkoff_invest_sdkv.Algo.Setups.{Labelled}
use tinkoff_invest_sdkv.Algo.Trades.{Ascending, InOrder, run_backtest_trades}
use tinkoff_invest_sdkv.Programs.{instrument_of}
use tinkoff_invest_sdkv.Programs.Backtests.{
  NamedReport, GetCandlesRequest, Answer, days_of, history_request, complete_bars, backtested,
  all_reports, compare_strategies, backtest_main,
}

-- The times of candles ascend from one time to another.
unfoldable pub InTime : ℤ → List HistoricCandle → ℤ → Type 0
InTime low [] high = low ≤ℤ high
InTime low (c ∷ cs) high = (low ≤ℤ c.time) × InTime c.time cs high

module _ (F : Double) where
  earlier-Ascending :
      (low later high : ℤ) (bars : List (Bar F))
      → low ≤ℤ later
      → Ascending F later bars high
      → Ascending F low bars high
  unfolding Ascending
  earlier-Ascending low later high [] h k = omega arith
  earlier-Ascending low later high (b ∷ bars) h (k, l) = (omega arith, l)

  complete_bars-Ascending :
      (low high : ℤ) (candles : List HistoricCandle)
      → InTime low candles high
      → Ascending F low (complete_bars F candles) high
  unfolding InTime complete_bars Ascending to_bar
  complete_bars-Ascending low high [] h = h
  complete_bars-Ascending low high (c ∷ cs) (h, k) = elim (Bool-cases c.is_complete) [
    | inl e ↦ rw e (h, complete_bars-Ascending c.time high cs k)
    | inr e ↦
        rw e (earlier-Ascending low c.time high _ h (complete_bars-Ascending c.time high cs k))
  ]

  -- A report whose trades lie one after the other between two times.
  abbrev pub IsInOrder : ℤ → ℤ → NamedReport F → Type 0
  IsInOrder low high r = InOrder F low r.figures.trade_log high

  module _ (low high : ℤ) (bars : List (Bar F)) (h : Ascending F low bars high) where
    backtested-IsInOrder :
        {S : Type 0} (s : Labelled S) (on_bar : S → Bar F → S × Action)
        → IsInOrder low high (backtested F s on_bar bars)
    unfolding backtested
    backtested-IsInOrder s on_bar = run_backtest_trades F on_bar s.strategy bars _ _ low high h

    all_reports-IsInOrder : All (IsInOrder low high) (all_reports F bars)
    unfolding all_reports
    all_reports-IsInOrder = (
      backtested-IsInOrder _ _,
      (
        backtested-IsInOrder _ _,
        (
          backtested-IsInOrder _ _,
          (backtested-IsInOrder _ _, (backtested-IsInOrder _ _, (backtested-IsInOrder _ _, tt))),
        ),
      ),
    )

  compare_strategies-IsInOrder :
      (low high : ℤ) (candles : List HistoricCandle)
      → InTime low candles high
      → (let run = compare_strategies F (value candles) in
          All (IsInOrder low high) run.reports
          × (((run.code ≡ 1) × (length (complete_bars F candles) ≤ 59) × (run.reports ≡ []))
              ⊎ ((run.code ≡ 0)
                  × (60 ≤ length (complete_bars F candles))
                  × (length run.reports ≡ 6))))
  unfolding compare_strategies all_reports
  compare_strategies-IsInOrder low high candles h =
      elim (Bool-cases (ltb (length (complete_bars F candles)) 60)) [
        | inl e ↦ rw e (tt, inl (refl, ground (arith, e), refl))
        | inr e ↦ rw e (
          all_reports-IsInOrder low high _ (complete_bars-Ascending low high candles h),
          inr (refl, ground (arith, e), refl),
        )
      ]

  -- `main` of examples/backtest.cpp with a token, on candles whose times ascend, complete or not: the
  -- trades of every report lie one after the other inside those times. With less than 60 complete
  -- candles it ends with 1 and no report, else with 0 and six reports.
  pub backtest_main-IsInOrder :
      (respond : GetCandlesRequest → Answer) (now : ℤ) (token : Bytes)
      (instrument days : Option Bytes) (candles : List HistoricCandle) (low high : ℤ)
      → respond (history_request (instrument_of instrument) (days_of days) now) ≡ value candles
      → InTime low candles high
      → let run = (backtest_main F respond now (some token) instrument days).0 in
        All (IsInOrder low high) run.reports
        × (((run.code ≡ 1) × (length (complete_bars F candles) ≤ 59) × (run.reports ≡ []))
            ⊎ ((run.code ≡ 0) × (60 ≤ length (complete_bars F candles)) × (length run.reports ≡ 6)))
  unfolding backtest_main
  backtest_main-IsInOrder respond now token instrument days candles low high e h =
      rw e (compare_strategies-IsInOrder low high candles h)
