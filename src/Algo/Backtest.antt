-- ===== src/Algo/Backtest.antt =====
-- `run_backtest` of include/tinvest/algo/backtest.hpp. A strategy is a state and its `on_bar`; the
-- name of the strategy is left out of the report.
use tinkoff_invest_sdkv.Prelude.{
  ℕ, ◌+◌, ◌-◌, Bool, true, false, ◌&&◌, if◌then◌else◌, ltb, ◌==◌, List, [], ◌∷◌, ◌++◌, length,
}
use tinkoff_invest_sdkv.Prelude.Int.{ℤ, pos}
use tinkoff_invest_sdkv.Algo.{Double, Bar, Action, hold, buy, sell}
use tinkoff_invest_sdkv.Algo.Indicators.{num, add_all, add_squares}

module _ (F : Double) where
  pub record TradeRecord : Type 0 where
    pub entry_time : ℤ
    pub exit_time : ℤ
    pub entry_price : F.Carrier
    pub exit_price : F.Carrier
    pub return_pct : F.Carrier

  pub record BacktestReport : Type 0 where
    pub bars : ℕ
    pub trades : ℕ
    pub total_return_pct : F.Carrier
    pub buy_hold_return_pct : F.Carrier
    pub max_drawdown_pct : F.Carrier
    pub sharpe : F.Carrier
    pub win_rate_pct : F.Carrier
    pub trade_log : List TradeRecord

  -- The local variables of the loop.
  pub record Position : Type 0 where
    pub equity : F.Carrier
    pub peak : F.Carrier
    pub long_pos : Bool
    pub entry_price : F.Carrier
    pub entry_time : ℤ
    pub prev_close : F.Carrier
    pub bar_returns : List F.Carrier
    pub max_drawdown : F.Carrier
    pub trade_log : List TradeRecord

  -- `std::max`.
  abbrev pub larger : F.Carrier → F.Carrier → F.Carrier
  larger a b = if F.less a b then b else a

  -- What a fill leaves of the equity.
  unfoldable pub charge : F.Carrier → F.Carrier → F.Carrier
  charge fee equity = F.times equity (F.minus (num F 1) fee)

  -- The record of a position that is closed at a bar.
  unfoldable pub close_trade : F.Carrier → Position → Bar F → TradeRecord
  close_trade fee p bar =
      let rest = F.minus (num F 1) fee in
      record {
        entry_time = p.entry_time;
        exit_time = bar.time;
        entry_price = p.entry_price;
        exit_price = bar.close;
        return_pct =
            F.times
              (F.minus (F.times (F.times (F.over bar.close p.entry_price) rest) rest) (num F 1))
              (num F 100);
      }

  -- The mark to market.
  unfoldable pub mark : Position → Bar F → Position
  mark p bar =
      if p.long_pos && F.less (num F 0) p.prev_close
      then record p { equity = F.times p.equity (F.over bar.close p.prev_close) }
      else p

  unfoldable pub open_position : F.Carrier → Position → Bar F → Position
  open_position fee p bar = if p.long_pos then p else record p {
    long_pos = true;
    entry_price = bar.close;
    entry_time = bar.time;
    equity = charge fee p.equity;
  }

  unfoldable pub close_position : F.Carrier → Position → Bar F → Position
  close_position fee p bar =
      if p.long_pos
      then record p {
        long_pos = false;
        equity = charge fee p.equity;
        trade_log = p.trade_log ++ close_trade fee p bar ∷ [];
      }
      else p

  unfoldable pub act : F.Carrier → Position → Bar F → Action → Position
  act fee p bar hold = p
  act fee p bar buy = open_position fee p bar
  act fee p bar sell = close_position fee p bar

  -- The end of the loop's body.
  unfoldable pub measure : F.Carrier → Position → Bar F → Position
  measure prev_equity p bar =
      let peak = larger p.peak p.equity in
      record p {
        bar_returns =
            if F.less (num F 0) prev_equity
            then p.bar_returns ++ F.minus (F.over p.equity prev_equity) (num F 1) ∷ []
            else p.bar_returns;
        peak = peak;
        max_drawdown =
            larger p.max_drawdown (F.times (F.over (F.minus peak p.equity) peak) (num F 100));
        prev_close = bar.close;
      }

  unfoldable pub run_bar : F.Carrier → Position → Bar F → Action → Position
  run_bar fee p bar action = measure p.equity (act fee (mark p bar) bar action) bar

  unfoldable pub run_bars :
      {S : Type 0} → F.Carrier → (S → Bar F → S × Action) → S → Position → List (Bar F) → Position
  run_bars fee on_bar s p [] = p
  run_bars fee on_bar s p (b ∷ bs) =
      let (t, action) = on_bar s b in run_bars fee on_bar t (run_bar fee p b action) bs

  unfoldable pub last_bar : Bar F → List (Bar F) → Bar F
  last_bar b [] = b
  last_bar b (c ∷ cs) = last_bar c cs

  unfoldable pub count_wins : List TradeRecord → ℕ
  count_wins [] = 0
  count_wins (t ∷ ts) = if F.less (num F 0) t.return_pct then 1 + count_wins ts else count_wins ts

  -- The ratio of Sharpe of the returns of the bars.
  unfoldable pub sharpe_of : F.Carrier → List F.Carrier → F.Carrier
  sharpe_of annualization rs =
      let mean = F.over (add_all F (num F 0) rs) (num F (length rs)) in
      let var = F.over (add_squares F mean (num F 0) rs) (num F (length rs - 1)) in
      let sd = F.sqrt var in
      if ltb 1 (length rs) && F.less (num F 0) sd
      then F.times (F.over mean sd) (F.sqrt annualization)
      else num F 0

  abbrev pub new_position : Bar F → Position
  new_position first = record {
    equity = num F 1;
    peak = num F 1;
    long_pos = false;
    entry_price = num F 0;
    entry_time = pos 0;
    prev_close = first.close;
    bar_returns = [];
    max_drawdown = num F 0;
    trade_log = [];
  }

  abbrev pub empty_report : ℕ → BacktestReport
  empty_report bars = record {
    bars = bars;
    trades = 0;
    total_return_pct = num F 0;
    buy_hold_return_pct = num F 0;
    max_drawdown_pct = num F 0;
    sharpe = num F 0;
    win_rate_pct = num F 0;
    trade_log = [];
  }

  -- What follows the loop, for at least two bars; a position still open is closed at the last bar.
  unfoldable pub report_of : F.Carrier → Position → Bar F → Bar F → ℕ → BacktestReport
  report_of annualization p first last bars =
      let trades = length p.trade_log in
      record {
        bars = bars;
        trades = trades;
        total_return_pct = F.times (F.minus p.equity (num F 1)) (num F 100);
        buy_hold_return_pct =
            F.times (F.minus (F.over last.close first.close) (num F 1)) (num F 100);
        max_drawdown_pct = p.max_drawdown;
        sharpe = sharpe_of annualization p.bar_returns;
        win_rate_pct =
            if trades == 0
            then num F 0
            else F.over (F.times (num F 100) (num F (count_wins p.trade_log))) (num F trades);
        trade_log = p.trade_log;
      }

  unfoldable pub run_backtest :
      {S : Type 0}
      → (S → Bar F → S × Action)
      → S
      → List (Bar F)
      → F.Carrier
      → F.Carrier
      → BacktestReport
  run_backtest on_bar s [] commission_pct annualization = empty_report 0
  run_backtest on_bar s (b ∷ []) commission_pct annualization = empty_report 1
  run_backtest on_bar s (b ∷ c ∷ cs) commission_pct annualization =
      let fee = F.over commission_pct (num F 100) in
      let last = last_bar c cs in
      let p = run_bars fee on_bar s (new_position b) (b ∷ c ∷ cs) in
      report_of annualization (close_position fee p last) b last (length (b ∷ c ∷ cs))
