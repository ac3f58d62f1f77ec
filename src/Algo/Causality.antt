-- ===== src/Algo/Causality.antt =====
-- The backtester of include/tinvest/algo/backtest.hpp does not look ahead.
use mathlib.Core.List.{append_assoc, append-nil}
use tinkoff_invest_sdkv.Prelude.{
  ◌≡◌, refl, sym, ap, ◌∙◌, arith, true, false, List, [], ◌∷◌, ◌++◌, ◌⊎◌, inl, inr, Bool-cases,
  subst,
}
use tinkoff_invest_sdkv.Algo.{Double, Bar, Action, hold, buy, sell}
use tinkoff_invest_sdkv.Algo.Indicators.{num}
use tinkoff_invest_sdkv.Algo.Backtest.{
  TradeRecord, Position, mark, act, open_position, close_position, close_trade, measure, run_bar,
  run_bars, last_bar, report_of, run_backtest, new_position,
}

module _ (F : Double) where
  -- A log goes on from another.
  abbrev pub GoesOn : List (TradeRecord F) → List (TradeRecord F) → Type 0
  GoesOn before after = (more : List (TradeRecord F)) × (after ≡ before ++ more)

  GoesOn-refl : (log : List (TradeRecord F)) → GoesOn log log
  GoesOn-refl log = ([], sym (append-nil log))

  GoesOn-trans : (a b c : List (TradeRecord F)) → GoesOn a b → GoesOn b c → GoesOn a c
  GoesOn-trans a b c (u, e) (v, f) = (u ++ v, f ∙ ap (λ l. l ++ v) e ∙ append_assoc a u v)

  -- A step of the loop adds a trade at most.
  close_log :
      (fee : F.Carrier) (p : Position F) (b : Bar F)
      → ((close_position F fee p b).trade_log ≡ p.trade_log)
        ⊎ ((t : TradeRecord F) × ((close_position F fee p b).trade_log ≡ p.trade_log ++ t ∷ []))
  unfolding close_position
  close_log fee p b = elim (Bool-cases p.long_pos) [
    | inl t ↦ inr (close_trade F fee p b, rw t refl)
    | inr t ↦ inl (rw t refl)
  ]

  close-GoesOn :
      (fee : F.Carrier) (p : Position F) (b : Bar F)
      → GoesOn p.trade_log (close_position F fee p b).trade_log
  close-GoesOn fee p b = elim (close_log fee p b) [
    | inl e ↦ ([], e ∙ sym (append-nil p.trade_log))
    | inr (t, e) ↦ (t ∷ [], e)
  ]

  mark_log : (p : Position F) (b : Bar F) → (mark F p b).trade_log ≡ p.trade_log
  unfolding mark
  mark_log p b = ground arith

  open_log :
      (fee : F.Carrier) (p : Position F) (b : Bar F)
      → (open_position F fee p b).trade_log ≡ p.trade_log
  unfolding open_position
  open_log fee p b = ground arith

  act-GoesOn :
      (fee : F.Carrier) (p : Position F) (b : Bar F) (action : Action)
      → GoesOn p.trade_log (act F fee p b action).trade_log
  unfolding act
  act-GoesOn fee p b hold = GoesOn-refl p.trade_log
  act-GoesOn fee p b buy = ([], open_log fee p b ∙ sym (append-nil p.trade_log))
  act-GoesOn fee p b sell = close-GoesOn fee p b

  run_bar-GoesOn :
      (fee : F.Carrier) (p : Position F) (b : Bar F) (action : Action)
      → GoesOn p.trade_log (run_bar F fee p b action).trade_log
  unfolding run_bar measure
  run_bar-GoesOn fee p b action =
      subst (λ log. GoesOn log (act F fee (mark F p b) b action).trade_log) (mark_log p b)
        (act-GoesOn fee (mark F p b) b action)

  module _ {S : Type 0} (on_bar : S → Bar F → S × Action) (fee : F.Carrier) where
    run_bars-GoesOn :
        (s : S) (p : Position F) (bs : List (Bar F))
        → GoesOn p.trade_log (run_bars F fee on_bar s p bs).trade_log
    unfolding run_bars
    run_bars-GoesOn s p [] = GoesOn-refl p.trade_log
    run_bars-GoesOn s p (b ∷ bs) =
        let q = run_bar F fee p b (on_bar s b).1 in
        GoesOn-trans _ _ _ (run_bar-GoesOn fee p b (on_bar s b).1)
          (run_bars-GoesOn (on_bar s b).0 q bs)

    -- The log after some bars goes on with those that follow.
    run_bars-append :
        (s : S) (p : Position F) (bs cs : List (Bar F))
        → GoesOn
            (run_bars F fee on_bar s p bs).trade_log
            (run_bars F fee on_bar s p (bs ++ cs)).trade_log
    unfolding run_bars
    run_bars-append s p [] cs = run_bars-GoesOn s p cs
    run_bars-append s p (b ∷ bs) cs =
        run_bars-append (on_bar s b).0 (run_bar F fee p b (on_bar s b).1) bs cs

  -- What a report keeps of the loop: its log, with one trade more if it still holds a position, which is
  -- closed at the last bar.
  unfoldable pub Closed : F.Carrier → Position F → Bar F → List (TradeRecord F) → Type 0
  Closed fee p last log =
      ((p.long_pos ≡ false) × (log ≡ p.trade_log))
      ⊎ ((p.long_pos ≡ true) × (log ≡ p.trade_log ++ close_trade F fee p last ∷ []))

  close-Closed :
      (fee : F.Carrier) (p : Position F) (b : Bar F)
      → Closed fee p b (close_position F fee p b).trade_log
  unfolding Closed close_position
  close-Closed fee p b = elim (Bool-cases p.long_pos) [
    | inl t ↦ inr (t, rw t refl)
    | inr t ↦ inl (t, rw t refl)
  ]

  -- The backtester does not look ahead: for any strategy, the trades that the loop makes on some bars, at
  -- least two, are also the first trades of a run on those bars and more; the run on those bars alone
  -- reports them, and one trade after them just if the loop still holds a position, which that trade
  -- closes at the last bar.
  pub run_backtest_prefix :
      {S : Type 0} (on_bar : S → Bar F → S × Action) (s : S) (b c : Bar F) (bs more : List (Bar F))
      (commission_pct annualization : F.Carrier)
      → let fee = F.over commission_pct (num F 100) in
        let p = run_bars F fee on_bar s (new_position F b) (b ∷ c ∷ bs) in
        let short = (run_backtest F on_bar s (b ∷ c ∷ bs) commission_pct annualization).trade_log in
        let long =
          (run_backtest F on_bar s (b ∷ c ∷ bs ++ more) commission_pct annualization).trade_log in
        Closed fee p (last_bar F c bs) short × GoesOn p.trade_log long
  unfolding run_backtest report_of
  run_backtest_prefix on_bar s b c bs more commission_pct annualization =
      let fee = F.over commission_pct (num F 100) in
      let short = run_bars F fee on_bar s (new_position F b) (b ∷ c ∷ bs) in
      let long = run_bars F fee on_bar s (new_position F b) (b ∷ c ∷ bs ++ more) in
      (
        close-Closed fee short (last_bar F c bs),
        GoesOn-trans _ _ _ (run_bars-append on_bar fee s (new_position F b) (b ∷ c ∷ bs) more)
            (close-GoesOn fee long (last_bar F c (bs ++ more))),
      )
