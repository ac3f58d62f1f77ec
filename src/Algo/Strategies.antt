-- ===== src/Algo/Strategies.antt =====
-- include/tinvest/algo/strategies.hpp: the state of each strategy and its `on_bar`. The constructors
-- and labels are in Setups.
use tinkoff_invest_sdkv.Prelude.{Bool, true, false, not, ◌&&◌, ◌||◌, if◌then◌else◌}
use tinkoff_invest_sdkv.Algo.{Double, Bar, Action, hold, buy, sell}
use tinkoff_invest_sdkv.Algo.Indicators.{
  Sma, push_sma, sma_ready, sma_value, Ema, push_ema, Rsi, push_rsi, rsi_value, Macd, push_macd,
  histogram, Bollinger, push_bollinger, bollinger_ready, middle, lower, Donchian, push_donchian,
  donchian_ready, greatest, least, front, num,
}

-- Whether there is a previous sign, and the sign.
pub record Cross : Type 0 where
  pub has_prev : Bool
  pub prev : Bool

abbrev pub new_cross : Cross
new_cross = record { has_prev = false; prev = false }

-- The two `if`s that `SmaCross`, `EmaCross` and `MacdCross` share.
unfoldable pub cross_action : Cross → Bool → Action
cross_action c now =
    if c.has_prev
    then if not now && c.prev then sell else if now && not c.prev then buy else hold
    else hold

abbrev pub crossed : Bool → Cross
crossed now = record { has_prev = true; prev = now }

module _ (F : Double) where
  pub record SmaCross : Type 0 where
    pub fast : Sma F
    pub slow : Sma F
    pub cross : Cross

  unfoldable pub sma_cross_on_bar : SmaCross → Bar F → SmaCross × Action
  sma_cross_on_bar s bar =
      let fast = push_sma F s.fast bar.close in
      let slow = push_sma F s.slow bar.close in
      let above = F.less (sma_value F slow) (sma_value F fast) in
      if not (sma_ready F slow)
      then (record s { fast = fast; slow = slow }, hold)
      else (record { fast = fast; slow = slow; cross = crossed above }, cross_action s.cross above)

  pub record EmaCross : Type 0 where
    pub fast : Ema F
    pub slow : Ema F
    pub cross : Cross

  unfoldable pub ema_cross_on_bar : EmaCross → Bar F → EmaCross × Action
  ema_cross_on_bar s bar =
      let fast = push_ema F s.fast bar.close in
      let slow = push_ema F s.slow bar.close in
      let above = F.less slow.value fast.value in
      if not slow.ready || not fast.ready
      then (record s { fast = fast; slow = slow }, hold)
      else (record { fast = fast; slow = slow; cross = crossed above }, cross_action s.cross above)

  pub record RsiReversion : Type 0 where
    pub rsi : Rsi F
    pub low_level : F.Carrier
    pub high_level : F.Carrier

  unfoldable pub rsi_on_bar : RsiReversion → Bar F → RsiReversion × Action
  rsi_on_bar s bar =
      let rsi = push_rsi F s.rsi bar.close in
      let v = rsi_value F rsi in
      (
        record s { rsi = rsi },
        if not rsi.ready
            then hold
            else if F.less v s.low_level
            then buy
            else if F.less s.high_level v
            then sell
            else hold,
      )

  unfoldable pub bollinger_on_bar : Bollinger F → Bar F → Bollinger F × Action
  bollinger_on_bar s bar =
      let b = push_bollinger F s bar.close in
      (
        b,
        if not (bollinger_ready F b)
            then hold
            else if F.less bar.close (lower F b)
            then buy
            else if F.less (middle F b) bar.close
            then sell
            else hold,
      )

  pub record MacdCross : Type 0 where
    pub macd : Macd F
    pub cross : Cross

  unfoldable pub macd_on_bar : MacdCross → Bar F → MacdCross × Action
  macd_on_bar s bar =
      let m = push_macd F s.macd bar.close in
      let positive = F.less (num F 0) (histogram F m) in
      if not m.signal.ready
      then (record s { macd = m }, hold)
      else (record { macd = m; cross = crossed positive }, cross_action s.cross positive)

  pub record DonchianBreakout : Type 0 where
    pub entry : Donchian F
    pub exit : Donchian F

  -- The channels are asked before the bar enters them; the second `if` overrules the first.
  unfoldable pub donchian_on_bar : DonchianBreakout → Bar F → DonchianBreakout × Action
  donchian_on_bar s bar = (
    record {
      entry = push_donchian F s.entry bar.high bar.low;
      exit = push_donchian F s.exit bar.high bar.low;
    },
    if donchian_ready F s.exit && F.less bar.close (least F (front bar.low s.exit.lows) s.exit.lows)
        then sell
        else if donchian_ready F s.entry
            && F.less (greatest F (front bar.high s.entry.highs) s.entry.highs) bar.close
        then buy
        else hold,
  )
