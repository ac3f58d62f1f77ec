-- ===== src/Algo/Trades.antt =====
-- The trade log of include/tinvest/algo/backtest.hpp.
use tinkoff_invest_sdkv.Prelude.{
  ◌≡◌, refl, arith, true, false, ◌&&◌, List, [], ◌∷◌, ◌++◌, ◌⊎◌, inl, inr, if_both,
}
use tinkoff_invest_sdkv.Prelude.Int.{ℤ, pos, ◌≤ℤ◌}
use tinkoff_invest_sdkv.Algo.{Double, Bar, Action, hold, buy, sell}
use tinkoff_invest_sdkv.Algo.Backtest.{
  TradeRecord, Position, mark, act, open_position, close_position, close_trade, measure, run_bar,
  run_bars, last_bar, report_of, run_backtest, new_position,
}

module _ (F : Double) where
  -- The times of the bars ascend from one time to another.
  unfoldable pub Ascending : ℤ → List (Bar F) → ℤ → Type 0
  Ascending low [] high = low ≤ℤ high
  Ascending low (b ∷ bs) high = (low ≤ℤ b.time) × Ascending b.time bs high

  -- Trade after trade, each is entered before it is left, and the next is entered after that.
  unfoldable pub InOrder : ℤ → List (TradeRecord F) → ℤ → Type 0
  InOrder low [] high = low ≤ℤ high
  InOrder low (t ∷ ts) high =
      (low ≤ℤ t.entry_time) × (t.entry_time ≤ℤ t.exit_time) × InOrder t.exit_time ts high

  InOrder-append :
      (low : ℤ) (ts : List (TradeRecord F)) (t : TradeRecord F)
      → InOrder low ts t.entry_time
      → t.entry_time ≤ℤ t.exit_time
      → InOrder low (ts ++ t ∷ []) t.exit_time
  unfolding InOrder
  InOrder-append low [] t h k = (h, k, omega arith)
  InOrder-append low (u ∷ ts) t (a, b, h) k = (a, b, InOrder-append u.exit_time ts t h k)

  later-InOrder :
      (low high later : ℤ) (ts : List (TradeRecord F))
      → InOrder low ts high
      → high ≤ℤ later
      → InOrder low ts later
  unfolding InOrder
  later-InOrder low high later [] h k = omega arith
  later-InOrder low high later (u ∷ ts) (a, b, h) k =
      (a, b, later-InOrder u.exit_time high later ts h k)

  -- The log is in order up to the entry of the open position, or up to now.
  IsSound : ℤ → ℤ → Position F → Type 0
  IsSound low now p =
      ((p.long_pos ≡ true) × InOrder low p.trade_log p.entry_time × (p.entry_time ≤ℤ now))
      ⊎ ((p.long_pos ≡ false) × InOrder low p.trade_log now)

  later-IsSound :
      (low now later : ℤ) (p : Position F) → IsSound low now p → now ≤ℤ later → IsSound low later p
  unfolding IsSound
  later-IsSound low now later p (inl (l, o, h)) k = inl (l, o, omega arith)
  later-IsSound low now later p (inr (l, o)) k =
      inr (l, later-InOrder low now later p.trade_log o k)

  open-IsSound :
      (fee : F.Carrier) (low : ℤ) (p : Position F) (b : Bar F)
      → IsSound low b.time p
      → IsSound low b.time (open_position F fee p b)
  unfolding open_position IsSound
  open-IsSound fee low p b (inl (l, o, h)) = rw l (inl (refl, o, h))
  open-IsSound fee low p b (inr (l, o)) = rw l (inl (refl, o, omega arith))

  close-IsSound :
      (fee : F.Carrier) (low : ℤ) (p : Position F) (b : Bar F)
      → IsSound low b.time p
      → InOrder low (close_position F fee p b).trade_log b.time
        × ((close_position F fee p b).long_pos ≡ false)
  unfolding close_position close_trade IsSound
  close-IsSound fee low p b (inl (l, o, h)) =
      rw l (InOrder-append low p.trade_log (close_trade F fee p b) o h, refl)
  close-IsSound fee low p b (inr (l, o)) = rw l (o, refl)

  act-IsSound :
      (fee : F.Carrier) (low : ℤ) (p : Position F) (b : Bar F) (a : Action)
      → IsSound low b.time p
      → IsSound low b.time (act F fee p b a)
  unfolding act IsSound
  act-IsSound fee low p b hold s = s
  act-IsSound fee low p b buy s = open-IsSound fee low p b s
  act-IsSound fee low p b sell s = let (o, l) = close-IsSound fee low p b s in inr (l, o)

  run_bar-IsSound :
      (fee : F.Carrier) (low now : ℤ) (p : Position F) (b : Bar F) (a : Action)
      → IsSound low now p
      → now ≤ℤ b.time
      → IsSound low b.time (run_bar F fee p b a)
  unfolding run_bar mark measure IsSound
  run_bar-IsSound fee low now p b a s h =
      let marked : IsSound low b.time (mark F p b) =
        if_both (IsSound low b.time) (p.long_pos && F.less (F.of_int (pos 0)) p.prev_close)
          (later-IsSound low now b.time p s h) (later-IsSound low now b.time p s h) in
      act-IsSound fee low (mark F p b) b a marked

  run_bars-IsSound :
      {S : Type 0} (fee : F.Carrier) (on_bar : S → Bar F → S × Action) (s : S) (low now high : ℤ)
      (p : Position F) (b : Bar F) (bs : List (Bar F))
      → IsSound low now p
      → Ascending now (b ∷ bs) high
      → IsSound low (last_bar F b bs).time (run_bars F fee on_bar s p (b ∷ bs))
        × ((last_bar F b bs).time ≤ℤ high)
  unfolding run_bars last_bar Ascending
  run_bars-IsSound fee on_bar s low now high p b [] v (h, k) =
      (run_bar-IsSound fee low now p b (on_bar s b).1 v h, k)
  run_bars-IsSound fee on_bar s low now high p b (c ∷ cs) v (h, k) =
      run_bars-IsSound fee on_bar (on_bar s b).0 low b.time high (run_bar F fee p b (on_bar s b).1)
        c cs (run_bar-IsSound fee low now p b (on_bar s b).1 v h) k

  Ascending_bounds : (low high : ℤ) (bs : List (Bar F)) → Ascending low bs high → low ≤ℤ high
  unfolding Ascending
  Ascending_bounds low high [] h = h
  Ascending_bounds low high (b ∷ bs) (h, k) = omega (arith, Ascending_bounds b.time high bs k)

  -- Whatever the strategy answers, on bars whose times ascend the trades of the report lie one after
  -- the other inside the times of the bars, each entered no later than it is left.
  pub run_backtest_trades :
      {S : Type 0} (on_bar : S → Bar F → S × Action) (s : S) (bars : List (Bar F))
      (commission_pct annualization : F.Carrier) (low high : ℤ)
      → Ascending low bars high
      → InOrder low (run_backtest F on_bar s bars commission_pct annualization).trade_log high
  unfolding run_backtest report_of InOrder IsSound
  run_backtest_trades on_bar s [] c a low high h = Ascending_bounds low high [] h
  run_backtest_trades on_bar s (b ∷ []) c a low high h = Ascending_bounds low high (b ∷ []) h
  run_backtest_trades on_bar s (b ∷ d ∷ ds) c a low high h =
      let fee = F.over c (F.of_int (pos 100)) in
      let start : IsSound low low (new_position F b) = inr (refl, omega arith) in
      let (v, k) =
        run_bars-IsSound fee on_bar s low low high (new_position F b) b (d ∷ ds) start h in
      let p = run_bars F fee on_bar s (new_position F b) (b ∷ d ∷ ds) in
      let last = last_bar F d ds in
      unfold last_bar in
      (later-InOrder low last.time high (close_position F fee p last).trade_log
        (close-IsSound fee low p last v).0 k)
