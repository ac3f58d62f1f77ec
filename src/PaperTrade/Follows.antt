-- ===== src/PaperTrade/Follows.antt =====
-- The paper trade of examples/paper_trade.cpp against the strategy `EmaCross` of the library.
use tinkoff_invest_sdkv.Prelude.{
  ◌≡◌, refl, ap, sym, ◌∙◌, arith, Bool, true, false, if◌then◌else◌, List, [], ◌∷◌, map, Option,
  none, some,
}
use tinkoff_invest_sdkv.Decimal.Money.{Quotation, of_quotation}
use tinkoff_invest_sdkv.Algo.{Double, Bar, Action, hold, buy, sell}
use tinkoff_invest_sdkv.Algo.Strategies.{cross_action, EmaCross, ema_cross_on_bar}
use tinkoff_invest_sdkv.Algo.Conversions.{to_double}
use tinkoff_invest_sdkv.PaperTrade.{Paper, pnl, Fill, bought, sold, trade, tick, on_last_price}

module _ (F : Double) where
  -- A trader who holds at most one position.
  pub record Account : Type 0 where
    pub long_pos : Bool
    pub entry : F.Carrier
    pub realized_pct : F.Carrier

  -- The trader follows an action at a price.
  unfoldable pub obey : Account → Action → F.Carrier → Account × Option (Fill F)
  obey a hold price = (a, none)
  obey a buy price =
      if a.long_pos
      then (a, none)
      else (record a { long_pos = true; entry = price }, some (bought price))
  obey a sell price =
      if a.long_pos
      then (
        record a { long_pos = false; realized_pct = F.plus a.realized_pct (pnl F price a.entry) },
        some (sold price (pnl F price a.entry)),
      )
      else (a, none)

  abbrev pub strategy_of : Paper F → EmaCross F
  strategy_of p = record {
    fast = p.fast;
    slow = p.slow;
    cross = record { has_prev = p.has_prev; prev = p.prev_above };
  }

  abbrev pub account_of : Paper F → Account
  account_of p = record { long_pos = p.long_pos; entry = p.entry; realized_pct = p.realized_pct }

  -- The strategy and the trader who follows it.
  unfoldable pub follow : EmaCross F → Account → List (Bar F) → Account × List (Option (Fill F))
  follow s a [] = (a, [])
  follow s a (b ∷ bs) =
      let (t, action) = ema_cross_on_bar F s b in
      let (c, fill) = obey a action b.close in
      let (end, fills) = follow t c bs in (end, fill ∷ fills)

  -- The paper trade on the prices that come.
  unfoldable pub paper_run : Paper F → List Quotation → Account × List (Option (Fill F))
  paper_run p [] = (account_of p, [])
  paper_run p (price ∷ prices) =
      let (q, fill) = on_last_price F p price in
      let (end, fills) = paper_run q prices in (end, fill ∷ fills)

  tick-strategy :
      (p : Paper F) (b : Bar F)
      → strategy_of (tick F p b.close).0 ≡ (ema_cross_on_bar F (strategy_of p) b).0
  unfolding tick trade ema_cross_on_bar
  tick-strategy p b = ground arith

  tick-account :
      (p : Paper F) (b : Bar F)
      → account_of (tick F p b.close).0
        ≡ (obey (account_of p) (ema_cross_on_bar F (strategy_of p) b).1 b.close).0
  unfolding tick trade ema_cross_on_bar cross_action obey
  tick-account p b = ground arith

  tick-fill :
      (p : Paper F) (b : Bar F)
      → (tick F p b.close).1
        ≡ (obey (account_of p) (ema_cross_on_bar F (strategy_of p) b).1 b.close).1
  unfolding tick trade ema_cross_on_bar cross_action obey
  tick-fill p b = ground arith

  abbrev with_fill :
      Account × List (Option (Fill F)) → Option (Fill F) → Account × List (Option (Fill F))
  with_fill (end, fills) fill = (end, fill ∷ fills)

  -- On any prices the paper trade ends in the position and with the profit, and has made the fills, of a
  -- trader who holds at most one position and follows the strategy `EmaCross` on bars that close at
  -- those prices.
  pub paper_run-follow :
      (p : Paper F) (bar_of : Quotation → Bar F) (prices : List Quotation)
      → ((q : Quotation) → (bar_of q).close ≡ to_double F (of_quotation q))
      → paper_run p prices ≡ follow (strategy_of p) (account_of p) (map bar_of prices)
  unfolding paper_run follow on_last_price
  paper_run-follow p bar_of [] h = refl
  paper_run-follow p bar_of (q ∷ qs) h =
      let b = bar_of q in
      let s = tick-strategy p b in
      let a = tick-account p b in
      let rest = paper_run-follow (tick F p b.close).0 bar_of qs h in
      ap (λ c. with_fill (paper_run (tick F p c).0 qs) (tick F p c).1) (sym (h q))
      ∙ ap (λ e. with_fill e (tick F p b.close).1) rest
      ∙ (λ i. with_fill (follow (s i) (a i) (map bar_of qs)) (tick-fill p b i))
