-- ===== src/PaperTrade.antt =====
-- examples/paper_trade.cpp: what `on_last_price` does under its mutex, and the result that is printed at
-- the end. What is printed on the way is left out but for the fills.
pub mod Follows
mod Examples
use tinkoff_invest_sdkv.Prelude.{
  ℕ, ◌+◌, ◌≡◌, refl, ap, ◌∙◌, arith, Bool, true, false, not, ◌&&◌, ◌||◌, if◌then◌else◌, List, [],
  ◌∷◌, Option, none, some, Bool-cases, inl, inr,
}
use tinkoff_invest_sdkv.Prelude.Int.{pos}
use tinkoff_invest_sdkv.Decimal.{Decimal}
use tinkoff_invest_sdkv.Decimal.Money.{Quotation, of_quotation}
use tinkoff_invest_sdkv.Algo.Conversions.{to_double}
use tinkoff_invest_sdkv.Algo.{Double, Bar, Action, hold, buy, sell}
use tinkoff_invest_sdkv.Algo.Indicators.{num, Ema, new_ema, push_ema}
use tinkoff_invest_sdkv.Algo.Strategies.{
  Cross, new_cross, crossed, cross_action, EmaCross, ema_cross_on_bar,
}

module _ (F : Double) where
  pub record Paper : Type 0 where
    pub fast : Ema F
    pub slow : Ema F
    pub prev_above : Bool
    pub has_prev : Bool
    pub long_pos : Bool
    pub entry : F.Carrier
    pub realized_pct : F.Carrier
    pub last : F.Carrier
    pub ticks : ℕ

  abbrev pub new_paper : ℕ → ℕ → Paper
  new_paper fast_n slow_n = record {
    fast = new_ema F fast_n;
    slow = new_ema F slow_n;
    prev_above = false;
    has_prev = false;
    long_pos = false;
    entry = num F 0;
    realized_pct = num F 0;
    last = num F 0;
    ticks = 0;
  }

  -- The profit of a position, in percent.
  unfoldable pub pnl : F.Carrier → F.Carrier → F.Carrier
  pnl price entry = F.times (F.minus (F.over price entry) (num F 1)) (num F 100)

  -- A fill at a price: a purchase, or a sale with its profit.
  pub data Fill : Type 0 where
    bought : F.Carrier → Fill
    sold : F.Carrier → F.Carrier → Fill

  -- The fills of a tick on which both averages are ready.
  unfoldable pub trade : Paper → Bool → F.Carrier → Paper × Option Fill
  trade p above price =
      if p.has_prev
      then if above && not p.prev_above && not p.long_pos
        then (record p { long_pos = true; entry = price }, some (bought price))
        else if not above && p.prev_above && p.long_pos
        then (
          record p { long_pos = false; realized_pct = F.plus p.realized_pct (pnl price p.entry) },
          some (sold price (pnl price p.entry)),
        )
        else (p, none)
      else (p, none)

  unfoldable pub tick : Paper → F.Carrier → Paper × Option Fill
  tick p price =
      let fast = push_ema F p.fast price in
      let slow = push_ema F p.slow price in
      let above = F.less slow.value fast.value in
      let q = record p { last = price; ticks = p.ticks + 1; fast = fast; slow = slow } in
      let (r, fill) = trade q above price in
      if not fast.ready || not slow.ready
      then (q, none)
      else (record r { prev_above = above; has_prev = true }, fill)

  unfoldable pub on_last_price : Paper → Quotation → Paper × Option Fill
  on_last_price p price = tick p (to_double F (of_quotation price))

  -- The result at the end: what is open, and the total.
  unfoldable pub open_pnl : Paper → F.Carrier
  open_pnl p =
      if p.long_pos && F.less (num F 0) p.entry && F.less (num F 0) p.last
      then pnl p.last p.entry
      else num F 0
