-- ===== src/Algo/Breakouts.antt =====
-- The breakouts of include/tinvest/algo/strategies.hpp against the rules of the turtles.
use mathlib.Core.List.{append_assoc, append-nil}
use tinkoff_invest_sdkv.Prelude.{
  ℕ, ◌-◌, ◌<◌, ◌≡◌, refl, sym, ap, ◌∙◌, arith, Bool, ◌&&◌, leb, ◌==◌, if◌then◌else◌, List, [], ◌∷◌,
  ◌++◌, length,
}
use tinkoff_invest_sdkv.Algo.{Double, Bar, Action, hold, buy, sell}
use tinkoff_invest_sdkv.Algo.Indicators.{Donchian, push_donchian}
use tinkoff_invest_sdkv.Algo.Windows.{drop, drop-nil, length-drop, slide-drop}
use tinkoff_invest_sdkv.Algo.Setups.{new_donchian_breakout}
use tinkoff_invest_sdkv.Algo.Strategies.{DonchianBreakout, donchian_on_bar}
use tinkoff_invest_sdkv.Algo.Channels.{
  IsOrder, all, channel, push_donchian-slide, below_channel, above_channel,
}

module _ (F : Double) where
  -- The channel F after some bars.
  unfoldable pub push_bars : Donchian F → List (Bar F) → Donchian F
  push_bars d [] = d
  push_bars d (b ∷ bs) = push_bars (push_donchian F d b.high b.low) bs

  -- The last bars, as many as the period says.
  unfoldable pub last : ℕ → List (Bar F) → List (Bar F)
  last period bars = drop (length bars - period) bars

  push_bars-channel :
      (period : ℕ) (xs bs : List (Bar F))
      → push_bars (channel F period (last period xs)) bs ≡ channel F period (last period (xs ++ bs))
  unfolding push_bars last
  push_bars-channel period xs [] =
      ap (λ ys. channel F period (last period ys)) (sym (append-nil xs))
  push_bars-channel period xs (b ∷ bs) =
      ap (λ d. push_bars d bs)
        (push_donchian-slide F period (last period xs) b
          ∙ ap (channel F period) (slide-drop period xs b))
      ∙ push_bars-channel period (xs ++ b ∷ []) bs
      ∙ ap (λ ys. channel F period (last period ys)) (append_assoc xs (b ∷ []) bs)

  -- The rules of the turtles: sell below every low of the last `exit` bars, else buy above every high
  -- of the last `entry` bars, once there are as many.
  unfoldable pub turtle : ℕ → ℕ → List (Bar F) → Bar F → Action
  turtle entry exit bars b =
      if leb exit (length bars) && all (λ (x : Bar F). F.less b.close x.low) (last exit bars)
      then sell
      else if leb entry (length bars)
          && all (λ (x : Bar F). F.less x.high b.close) (last entry bars)
      then buy
      else hold

  -- The strategy after some bars.
  unfoldable pub after_bars : DonchianBreakout F → List (Bar F) → DonchianBreakout F
  after_bars s [] = s
  after_bars s (b ∷ bs) = after_bars (donchian_on_bar F s b).0 bs

  after_bars-push_bars :
      (s : DonchianBreakout F) (bs : List (Bar F))
      → after_bars s bs ≡ record { entry = push_bars s.entry bs; exit = push_bars s.exit bs }
  unfolding after_bars push_bars donchian_on_bar
  after_bars-push_bars s [] = refl
  after_bars-push_bars s (b ∷ bs) = after_bars-push_bars (donchian_on_bar F s b).0 bs

  full :
      (period : ℕ) (bars : List (Bar F))
      → (length (last period bars) == period) ≡ leb period (length bars)
  unfolding last
  full period bars = ground (arith, length-drop (length bars - period) bars)

  filled :
      (period : ℕ) (bars : List (Bar F))
      → push_bars (record { period = period; highs = []; lows = [] }) bars
        ≡ channel F period (last period bars)
  unfolding last
  filled period bars =
      ap (λ ws. push_bars (channel F period ws) bars) (sym (drop-nil (0 - period)))
      ∙ push_bars-channel period [] bars

  -- On numbers without NaN, after any bars the breakout strategy with positive periods sells on a close
  -- below the low of every one of the last `exit` bars, and else buys on a close above the high of
  -- every one of the last `entry` bars, once there are that many; the bar itself is not among them.
  pub donchian_on_bar-turtle :
      (o : IsOrder F) (entry exit : ℕ) (bars : List (Bar F)) (b : Bar F)
      → 0 < entry
      → 0 < exit
      → (donchian_on_bar F (after_bars (new_donchian_breakout F entry exit).strategy bars) b).1
        ≡ turtle entry exit bars b
  unfolding donchian_on_bar turtle new_donchian_breakout
  donchian_on_bar-turtle o entry exit bars b h k =
      let reach = after_bars-push_bars (new_donchian_breakout F entry exit).strategy bars in
      let decide = λ (t : Bool). λ (u : Bool). if t then sell else if u then buy else hold in
      let below =
        below_channel F o exit (last exit bars) b.close b.low k
        ∙ ap (λ t. t && all (λ (x : Bar F). F.less b.close x.low) (last exit bars))
            (full exit bars) in
      let above =
        above_channel F o entry (last entry bars) b.close b.high h
        ∙ ap (λ t. t && all (λ (x : Bar F). F.less x.high b.close) (last entry bars))
            (full entry bars) in
      ap (λ t. (donchian_on_bar F t b).1) reach
      ∙ (λ i.
          (donchian_on_bar F (record { entry = filled entry bars i; exit = filled exit bars i })
            b).1)
      ∙ (λ i. decide (below i) (above i))
