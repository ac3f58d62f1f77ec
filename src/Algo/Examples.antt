-- ===== src/Algo/Examples.antt =====
-- Runs of include/tinvest/algo with whole numbers in place of `double`.
use tinkoff_invest_sdkv.Prelude.{ℕ, ◌≡◌, refl, arith, true, List, [], ◌∷◌, ◌++◌}
use tinkoff_invest_sdkv.Prelude.Int.{ℤ, pos, ◌+ℤ◌, ◌-ℤ◌, ◌*ℤ◌, neg, quot, ltb_ℤ, eqb_ℤ, pos_part}
use tinkoff_invest_sdkv.Algo.{Double, Bar, hold, buy, sell}
use tinkoff_invest_sdkv.Algo.Indicators.{
  new_sma, sma_ready, sma_value, new_ema, front, pop_front, push_sma,
}
use tinkoff_invest_sdkv.Algo.Windows.{drop, push_all}
use tinkoff_invest_sdkv.Algo.Averages.{push_all_ema, smooth_all, mean, push_all_ema-smooth_all}
use tinkoff_invest_sdkv.Algo.Indicators.{new_rsi, add_all}
use tinkoff_invest_sdkv.Algo.Wilder.{
  gain_of, loss_of, changes, final_close, wilder, push_all_rsi, push_all_rsi-wilder,
}
use tinkoff_invest_sdkv.Algo.Setups.{new_donchian_breakout}
use tinkoff_invest_sdkv.Algo.Channels.{IsOrder, all}
use tinkoff_invest_sdkv.Algo.Breakouts.{after_bars, turtle, last, donchian_on_bar-turtle}
use tinkoff_invest_sdkv.Algo.Strategies.{
  donchian_on_bar, SmaCross, EmaCross, MacdCross, new_cross, sma_cross_on_bar, ema_cross_on_bar,
  macd_on_bar, cross_action,
}
use tinkoff_invest_sdkv.Algo.Crossing.{none_yet, alternates, emit, crossing_alternates}
use tinkoff_invest_sdkv.Algo.Backtest.{run_bars, new_position, last_bar, run_backtest}
use tinkoff_invest_sdkv.Algo.Causality.{Closed, GoesOn, run_backtest_prefix}
use tinkoff_invest_sdkv.Algo.Trades.{Ascending}

-- Whole numbers; a square root is not needed here.
abbrev whole : Double
whole = record {
  Carrier = ℤ;
  plus = λ a b. a +ℤ b;
  minus = λ a b. a -ℤ b;
  times = λ a b. a *ℤ b;
  over = λ a b. quot a (pos_part b);
  less = ltb_ℤ;
  equal = eqb_ℤ;
  opposite = neg;
  sqrt = λ a. a;
  of_int = λ n. n;
}

abbrev four_values : List ℤ
four_values = pos 2 ∷ pos 4 ∷ pos 6 ∷ pos 8 ∷ []

sma_run : sma_value whole (push_all whole (new_sma whole 2) four_values) ≡ pos 7
unfolding sma_value quot push_all push_sma pop_front ◌-ℤ◌ ◌+ℤ◌ front
sma_run = refl

push_all_ema-smooth_all_example :
    let e = push_all_ema whole (new_ema whole 2) four_values in
    (e.ready ≡ true)
    × (e.value
        ≡ smooth_all whole (quot (pos 2) 3) (mean whole (pos 2 ∷ pos 4 ∷ [])) (pos 6 ∷ pos 8 ∷ []))
unfolding ◌+ℤ◌
push_all_ema-smooth_all_example =
    push_all_ema-smooth_all whole 2 (pos 2 ∷ pos 4 ∷ []) (pos 6 ∷ pos 8 ∷ []) (omega arith) refl

push_all_rsi-wilder_example :
    let r = push_all_rsi whole (new_rsi whole 2) (pos 5 ∷ pos 9 ∷ pos 7 ∷ pos 9 ∷ []) in
    (r.ready ≡ true)
    × (r.avg_gain
        ≡ wilder whole 2
            (quot
              (add_all whole (pos 0) (changes whole (gain_of whole) (pos 5) (pos 9 ∷ pos 7 ∷ [])))
              2)
            (changes whole
              (gain_of whole)
              (final_close whole (pos 5) (pos 9 ∷ pos 7 ∷ []))
              (pos 9 ∷ [])))
    × (r.avg_loss
        ≡ wilder whole 2
            (quot
              (add_all whole (pos 0) (changes whole (loss_of whole) (pos 5) (pos 9 ∷ pos 7 ∷ [])))
              2)
            (changes whole
              (loss_of whole)
              (final_close whole (pos 5) (pos 9 ∷ pos 7 ∷ []))
              (pos 9 ∷ [])))
push_all_rsi-wilder_example =
    push_all_rsi-wilder whole 2 (pos 5) (pos 9 ∷ pos 7 ∷ []) (pos 9 ∷ []) (omega arith) refl

abbrev bar_at : ℕ → ℕ → Bar whole
bar_at time close = record {
  time = pos time;
  open_price = pos close;
  high = pos close;
  low = pos close;
  close = pos close;
  volume = pos 1;
}

abbrev six_bars : List (Bar whole)
six_bars = bar_at 1 9 ∷ bar_at 2 5 ∷ bar_at 3 4 ∷ bar_at 4 9 ∷ bar_at 5 12 ∷ bar_at 6 3 ∷ []

abbrev sma_cross : SmaCross whole
sma_cross = record { fast = new_sma whole 1; slow = new_sma whole 2; cross = new_cross }

abbrev ema_cross : EmaCross whole
ema_cross = record { fast = new_ema whole 1; slow = new_ema whole 2; cross = new_cross }

abbrev macd_cross : MacdCross whole
macd_cross = record {
  macd = record { fast = new_ema whole 1; slow = new_ema whole 2; signal = new_ema whole 1 };
  cross = new_cross;
}

emit_run :
    emit (sma_cross_on_bar whole) sma_cross six_bars ≡ hold ∷ hold ∷ hold ∷ buy ∷ hold ∷ sell ∷ []
unfolding emit sma_cross_on_bar sma_ready push_sma cross_action pop_front sma_value quot ◌-ℤ◌ ◌+ℤ◌
    front
emit_run = refl

crossing_alternates_example :
    (alternates none_yet (emit (sma_cross_on_bar whole) sma_cross six_bars) ≡ true)
    × (alternates none_yet (emit (ema_cross_on_bar whole) ema_cross six_bars) ≡ true)
    × (alternates none_yet (emit (macd_on_bar whole) macd_cross six_bars) ≡ true)
crossing_alternates_example = crossing_alternates whole sma_cross ema_cross macd_cross six_bars

six_bars-Ascending : Ascending whole (pos 0) six_bars (pos 6)
unfolding Ascending
six_bars-Ascending = (
  omega arith,
  (omega arith, (omega arith, (omega arith, (omega arith, (omega arith, omega arith))))),
)

-- The whole numbers are ordered.
whole-IsOrder : IsOrder whole
whole-IsOrder = record {
  asymmetric = λ a b h. ground arith;
  cotransitive = λ a b c h. ground arith;
}

donchian_on_bar-turtle_example :
    (donchian_on_bar whole
      (after_bars whole (new_donchian_breakout whole 3 2).strategy six_bars)
      (bar_at 7 2)).1
    ≡ turtle whole 3 2 six_bars (bar_at 7 2)
donchian_on_bar-turtle_example =
    donchian_on_bar-turtle whole whole-IsOrder 3 2 six_bars (bar_at 7 2) (omega arith) (omega arith)

turtle_run : turtle whole 3 2 six_bars (bar_at 7 2) ≡ sell
unfolding turtle all last drop
turtle_run = refl

abbrev first_bars : List (Bar whole)
first_bars = bar_at 3 4 ∷ bar_at 4 9 ∷ []

abbrev later_bars : List (Bar whole)
later_bars = bar_at 5 12 ∷ bar_at 6 3 ∷ []

run_backtest_prefix_example :
    let report = λ (bars : List (Bar whole)).
      run_backtest whole (sma_cross_on_bar whole) sma_cross bars (pos 0) (pos 252) in
    let short = (report (bar_at 1 9 ∷ bar_at 2 5 ∷ first_bars)).trade_log in
    let long = (report (bar_at 1 9 ∷ bar_at 2 5 ∷ first_bars ++ later_bars)).trade_log in
    let p =
      run_bars whole
        (quot (pos 0) 100)
        (sma_cross_on_bar whole)
        sma_cross
        (new_position whole (bar_at 1 9))
        (bar_at 1 9 ∷ bar_at 2 5 ∷ first_bars) in
    Closed whole (quot (pos 0) 100) p (last_bar whole (bar_at 2 5) first_bars) short
    × GoesOn whole p.trade_log long
run_backtest_prefix_example =
    run_backtest_prefix whole (sma_cross_on_bar whole) sma_cross (bar_at 1 9) (bar_at 2 5)
      first_bars later_bars (pos 0) (pos 252)
